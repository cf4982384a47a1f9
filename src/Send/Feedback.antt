-- ===== src/Send/Feedback.antt =====
-- `collect_feedback` and `dedup` of lib/send.rs: the receiver's answer to a DONE.
pub mod Ending
pub mod Leaving
use udpcp.Base.{
  ℕ, zero, suc, List, [], ◌∷◌, Option, none, some, Bool, false, if◌then◌else◌, length, slice,
}
use udpcp.Error.{ok, err, is_timeout}
use udpcp.Report.{SocketAddr, addr_eq}
use udpcp.Io.{Io, pure, raise, out_of_fuel, ◌>>=◌, ◌>>◌, attempt, recv_from, set_read_timeout}
use udpcp.Protocol.{
  SendLimits, PacketHeader, fin, nack, parse_packet, header_size, decode_nack_payload,
}
use udpcp.Send.Blast.{insert}

-- `retain` of the first occurrences.
pub dedup_seen : (ℕ → Bool) → List ℕ → List ℕ
dedup_seen seen [] = []
dedup_seen seen (s ∷ seqs) =
    let rest = dedup_seen (insert s seen) seqs in if seen s then rest else s ∷ rest

unfoldable pub dedup : List ℕ → List ℕ
unfolding dedup_seen
dedup seqs = dedup_seen (λ k. false) seqs

pub data Feedback : Type 0 where
  complete : Feedback
  retransmit : List ℕ → Feedback

-- A packet of the receiver's: none for a FIN, or what is missing now.
unfoldable pub on_answer :
    SendLimits → List ℕ → List ℕ → Option (PacketHeader × ℕ) → Io (Option (List ℕ))
on_answer limits missing d none = pure (some missing)
on_answer limits missing d (some (h, payload_end)) = elim h.packet_type [
  | fin ↦ pure none
  | nack ↦
      set_read_timeout (some limits.nack_collection_timeout)
      >> pure (some (decode_nack_payload h.seq (slice header_size payload_end d) missing))
  | _ ↦ pure (some missing)
]

unfoldable pub hear : SocketAddr → SendLimits → List ℕ → List ℕ → SocketAddr → Io (Option (List ℕ))
hear receiver_addr limits missing d from =
    if addr_eq from receiver_addr
    then on_answer limits missing d (parse_packet d (length d))
    else pure (some missing)

pub collect_loop : ℕ → SocketAddr → SendLimits → List ℕ → Io Feedback
collect_loop zero receiver_addr limits missing = out_of_fuel
collect_loop (suc fuel) receiver_addr limits missing = attempt recv_from >>= λ r. elim r [
  | err e ↦ if is_timeout e then pure (retransmit (dedup missing)) else raise e
  | ok (d, from) ↦ hear receiver_addr limits missing d from >>= λ next. elim next [
    | none ↦ pure complete
    | some missing' ↦ collect_loop fuel receiver_addr limits missing'
  ]
]

-- Each round that goes on has taken an arrival from the inbox.
unfoldable pub collect_feedback : SocketAddr → SendLimits → Io Feedback
unfolding collect_loop
collect_feedback receiver_addr limits w =
    (set_read_timeout (some limits.retransmit_timeout)
        >> collect_loop (suc (length w.inbox)) receiver_addr limits [])
      w
