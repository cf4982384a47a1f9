-- ===== src/Send/Chunks.antt =====
-- `send_one` and `send_pending` of lib/send.rs: the DATA packets of one pass.
pub mod Leaving
use udpcp.Base.{
  ℕ, zero, suc, ◌+◌, ◌-◌, ◌*◌, ◌%◌, max, List, [], ◌∷◌, ◌++◌, Option, none, some, Bool, true, false,
  leb, if◌then◌else◌, length, u16_mod, u32_mod,
}
use udpcp.Report.{SocketAddr, progress}
use udpcp.Io.{Arrival, datagram, failure, Io, pure, out_of_fuel, ◌>>=◌, ◌>>◌, now, report, sleep}
use udpcp.Io.FileOps.{File, seek}
use udpcp.Protocol.{ProtocolVersion, data_chunk, verifies, send_packet}
use udpcp.Protocol.Hashing.{Sha256, read_chunk}
use udpcp.Send.Session.{SendSession}
use udpcp.Send.Blast.{Blast, remove, drain_feedback}

abbrev feedback_drain_interval : ℕ
feedback_drain_interval = 16

unfoldable pub pause : Option ℕ → List ℕ → Io (Unit {0})
pause none rest = pure tt
pause (some d) [] = pure tt
pause (some d) (x ∷ rest) = sleep d

-- The front of the queue is taken out.
unfoldable pub popped : Blast → ℕ → List ℕ → Blast
popped b seq rest = record b { pending = rest; queued = remove seq b.queued }

-- `progress_done` after a chunk was sent. In the subtraction the machine word wraps.
unfoldable pub advanced : SendSession → Blast → Blast
advanced s b = record b {
  progress_done =
      max b.progress_done ((s.total_chunks + u32_mod - length b.pending % u32_mod) % u32_mod);
}

-- The bytes of the datagrams that are still to come: no more chunks can be asked for again.
unfoldable pub inbox_bytes : List (ℕ × Arrival) → ℕ
inbox_bytes [] = 0
inbox_bytes ((t, datagram d from) ∷ r) = length d + inbox_bytes r
inbox_bytes ((t, failure e) ∷ r) = inbox_bytes r

module _ (sha : Sha256) where
  open sha use {digest}

  unfoldable pub data_payload : ProtocolVersion → List ℕ → List ℕ
  data_payload version chunk = if verifies version then digest chunk ++ chunk else chunk

  unfoldable pub send_one : SendSession → File → ℕ → Io File
  send_one s f seq = seek f (seq * s.chunk_size) >>= λ f'.
      read_chunk f' s.chunk_size >>= λ (chunk, f'').
      let payload = data_payload s.version chunk in
      send_packet s.target
        (record { packet_type = data_chunk; seq = seq; payload_len = length payload % u16_mod })
        payload
      >> pure f''

  -- One round of the loop: the front chunk is sent and reported.
  unfoldable pub send_front : SendSession → File → Blast → ℕ → List ℕ → ℕ → Io (File × Blast)
  unfolding pause
  send_front s f b seq rest start = do
    f' ← send_one s f seq
    let b' = advanced s (popped b seq rest)
    t ← now
    report (progress b'.progress_done s.total_chunks s.chunk_size (t - start))
    pause s.delay rest
    pure (f', b')

  -- What follows a round: every 16 chunks the feedback is drained. The value is the blast and
  -- whether a FIN was seen.
  unfoldable pub drain_at : SocketAddr → ℕ → Blast → Io (Blast × Bool)
  drain_at receiver_addr since_drain b =
      if leb feedback_drain_interval since_drain
      then drain_feedback receiver_addr b
      else pure (b, false)

  unfoldable pub reset_count : ℕ → ℕ
  reset_count since_drain = if leb feedback_drain_interval since_drain then 0 else since_drain

  pub pending_loop : ℕ → SendSession → SocketAddr → ℕ → File → Blast → ℕ → Io (File × Blast × Bool)
  unfolding reset_count
  pending_loop zero s receiver_addr start f b since_drain = out_of_fuel
  pending_loop (suc fuel) s receiver_addr start f b since_drain = elim b.pending [
    | [] ↦ pure (f, b, false)
    | seq ∷ rest ↦ send_front s f b seq rest start >>= λ (f', b').
        drain_at receiver_addr (suc since_drain) b' >>= λ (b'', saw_fin).
        let more = pending_loop fuel s receiver_addr start f' b'' (reset_count (suc since_drain)) in
        if saw_fin then pure (f', b'', true) else more
  ]

  -- The queue is sent to its end, unless a FIN comes first.
  unfoldable pub send_pending :
      SendSession → File → Blast → SocketAddr → ℕ → Io (File × Blast × Bool)
  unfolding pending_loop
  send_pending s f b receiver_addr start w =
      pending_loop (suc (length b.pending + inbox_bytes w.inbox)) s receiver_addr start f b 0 w
