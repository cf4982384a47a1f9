-- ===== src/Recv/Gaps.antt =====
-- Missing chunks in lib/recv.rs: which they are, the NACK packets that name them, and when those
-- are due.
pub mod Missing
pub mod Batches
pub mod Timing
pub mod Waking
pub mod Sending
use udpcp.Base.{
  ℕ, zero, suc, ◌+◌, ◌-◌, ◌/◌, ◌%◌, min, max, List, [], ◌∷◌, ◌++◌, Option, none, some, Bool, true,
  false, leb, if◌then◌else◌, length, take, drop, u16_mod, u32_mod,
}
use udpcp.Error.{timed_out, idle_timeout}
use udpcp.Report.{SocketAddr, missing_chunks}
use udpcp.Io.{Io, pure, raise, ◌>>=◌, ◌>>◌, or_panic, now, report, instant_add}
use udpcp.Protocol.{
  nack, RecvLimits, nack_reissue_interval, one_milli, send_packet, encode_nack_payload,
  max_nacks_per_packet,
}
use udpcp.Recv.State.{ReceiveState, is_received}

-- `missing.push(seq)` unless the chunk was received; `rest` are the missing ones above it.
push_missing : Option Bool → ℕ → Option (List ℕ) → Option (List ℕ)
push_missing none seq rest = none
push_missing (some b) seq none = none
push_missing (some true) seq (some rest) = some rest
push_missing (some false) seq (some rest) = some (seq ∷ rest)

-- The missing ones of `n` chunks from `seq` on.
pub missing_from : ReceiveState → ℕ → ℕ → Option (List ℕ)
unfolding push_missing
missing_from s seq zero = some []
missing_from s seq (suc n) = push_missing (is_received s seq) seq (missing_from s (suc seq) n)

unfoldable pub collect_missing : ReceiveState → ℕ → Option (List ℕ)
unfolding missing_from
collect_missing s upto = missing_from s 0 (min upto s.total)

-- `xs.chunks(k)`: a round takes `k` items, so `length xs` rounds are enough for a positive `k`.
pub chunks_fuel : ℕ → ℕ → List ℕ → List (List ℕ)
chunks_fuel fuel k [] = []
chunks_fuel zero k (x ∷ xs) = []
chunks_fuel (suc fuel) k (x ∷ xs) = take k (x ∷ xs) ∷ chunks_fuel fuel k (drop k (x ∷ xs))

unfoldable pub chunks : ℕ → List ℕ → List (List ℕ)
unfolding chunks_fuel
chunks k xs = chunks_fuel (length xs) k xs

unfoldable pub send_batch : SocketAddr → List ℕ → Io (Unit {0})
send_batch addr batch =
    let payload = encode_nack_payload batch in
    send_packet addr
      (record {
        packet_type = nack;
        seq = length batch % u32_mod;
        payload_len = length payload % u16_mod;
      })
      payload

unfoldable pub send_batches : SocketAddr → List (List ℕ) → Io (Unit {0})
send_batches addr [] = pure tt
send_batches addr (b ∷ bs) = send_batch addr b >> send_batches addr bs

unfoldable pub emit_nacks : SocketAddr → List ℕ → Io (Unit {0})
emit_nacks addr missing = send_batches addr (chunks max_nacks_per_packet missing)

unfoldable pub send_nacks : ReceiveState → SocketAddr → Io (Unit {0})
send_nacks s addr = do
  missing ← or_panic (collect_missing s s.total)
  report (missing_chunks (length missing))
  emit_nacks addr missing

reissue : Option ℕ → ℕ → Io ℕ
reissue none at = pure at
reissue (some last) at = instant_add last nack_reissue_interval >>= λ l. pure (max at l)

-- When the oldest gap has lasted the holdoff, and the last NACK is long enough ago.
unfoldable pub next_nack_deadline : ReceiveState → ℕ → Option ℕ → Io (Option ℕ)
unfolding reissue
next_nack_deadline s holdoff last_nack_at = elim s.oldest_gap_at [
  | none ↦ pure none
  | some t ↦ do held ← instant_add t holdoff; at ← reissue last_nack_at held; pure (some at)
]

unfoldable pub nack_gaps : ReceiveState → SocketAddr → Io (Unit {0})
nack_gaps s addr = or_panic (collect_missing s s.frontier) >>= λ missing. elim missing [
  | [] ↦ pure tt
  | x ∷ xs ↦ emit_nacks addr (x ∷ xs)
]

earlier : ℕ → Option ℕ → ℕ
earlier deadline none = deadline
earlier deadline (some nack_at) = min deadline nack_at

unfoldable pub read_timeout : ReceiveState → ℕ → Option ℕ → RecvLimits → Io ℕ
unfolding earlier
read_timeout s last_data_at last_nack_at limits = do
  deadline ← instant_add last_data_at limits.idle_timeout
  nack_at ← next_nack_deadline s limits.nack_holdoff last_nack_at
  t ← now
  pure (max (earlier deadline nack_at - t) one_milli)

pub data TickOutcome : Type 0 where
  waiting : TickOutcome
  nacked : ℕ → TickOutcome

unfoldable pub is_due : Option ℕ → ℕ → Bool
is_due none t = false
is_due (some d) t = leb d t

unfoldable pub on_idle_tick : ReceiveState → SocketAddr → ℕ → Option ℕ → RecvLimits → Io TickOutcome
unfolding is_due
on_idle_tick s addr last_data_at last_nack_at limits = now >>= λ t.
    if leb limits.idle_timeout (t - last_data_at)
    then raise (record { kind = timed_out; reason = idle_timeout })
    else (next_nack_deadline s limits.nack_holdoff last_nack_at >>= λ deadline.
        if is_due deadline t then (nack_gaps s addr >> pure (nacked t)) else pure waiting)
