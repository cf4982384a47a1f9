-- ===== src/Send/Chunks/Leaving.antt =====
-- `send_pending` sends the queue to its end: its fuel is enough whatever the receiver asks for, and
-- what it sends are chunks of the file.
use udpcp.Base.{
  ◌++◌, ◌∙◌, true, All, ℕ, zero, suc, ◌+◌, ◌*◌, ◌<◌, ◌≡◌, refl, inl, inr, List, [], ◌∷◌, Option,
  none, some, Bool, true, false, Bool-cases, leb, length, arith, if◌then◌else◌,
}
use udpcp.Report.{SocketAddr}
use udpcp.Io.{pure}
use udpcp.Io.Disk.{FilePath}
use udpcp.Io.FileOps.{File}
use udpcp.Io.Leaves.{
  Frame, known-Leaves, Inbox, Leaves, Stays, pure-Stays, >>=-Leaves, after_stay-Leaves,
  before-Leaves, pure-Leaves, counted-Leaves,
}
use udpcp.Io.Leaves.Calls.{now-Stays, report-Stays, sleep-Stays, send_to-Stays}
use udpcp.Protocol.{PacketHeader, PacketType, encode_header, send_packet, send_control}
use udpcp.Protocol.Hashing.{Sha256}
use udpcp.Send.Session.{SendSession}
use udpcp.Send.Blast.{Blast}
use udpcp.Send.Blast.Leaving.{Within, Drained, drain_feedback-Leaves}
use udpcp.Send.Blast.Absorbing.{Chunks, FinFrom}
use udpcp.Send.Packets.{Allows, our_chunk, control_bytes}
use udpcp.Io.Leaves.Reading.{content, seek-Leaves, read_chunk-Leaves}
use udpcp.Recv.State.Assembly.{chunk_of}
use udpcp.Send.Chunks.{
  pause, popped, advanced, inbox_bytes, send_one, send_front, drain_at, pending_loop, send_pending,
  reset_count,
}

module _ (F : Frame) where
  pub send_packet-Stays :
      (addr : SocketAddr) (h : PacketHeader) (payload : List ℕ)
      → F.Good (addr, encode_header h ++ payload)
      → Stays F (send_packet addr h payload)
  unfolding send_packet
  send_packet-Stays addr h payload good = send_to-Stays F addr _ good

  pub send_control-Stays :
      (addr : SocketAddr) (t : PacketType) (seq : ℕ)
      → F.Good (addr, control_bytes t seq)
      → Stays F (send_control addr t seq)
  unfolding send_control
  send_control-Stays addr t seq good = send_packet-Stays addr _ [] good

  pause-Stays : (delay : Option ℕ) (rest : List ℕ) → Stays F (pause delay rest)
  unfolding pause
  pause-Stays none rest = pure-Stays F tt
  pause-Stays (some d) [] = pure-Stays F tt
  pause-Stays (some d) (x ∷ rest) = sleep-Stays F d

  module _ (sha : Sha256) (s : SendSession) (path : FilePath) (name : List ℕ)
      (ours : Allows sha s (content F path) F name) where
    send_one-Leaves :
        (P : Inbox → Type 0) (f : File) (seq : ℕ)
        → f.path ≡ path
        → seq < s.total_chunks
        → Leaves F P (send_one sha s f seq) (λ g i. P i × (g.path ≡ path))
    unfolding send_one
    send_one-Leaves P f seq here lt = >>=-Leaves F (seek-Leaves F P f (seq * s.chunk_size)) λ f'.
        known-Leaves F P _ _ λ (same, pos).
          >>=-Leaves F (read_chunk-Leaves F P f' s.chunk_size) λ (chunk, f'').
            known-Leaves F P _ _ λ (piece, same').
              let is_chunk : chunk ≡ chunk_of (content F path) s.chunk_size seq =
                unfold chunk_of in rw (piece, pos, same, here) refl in
              after_stay-Leaves F
                (send_packet-Stays s.target _ _
                  (ours.each s.target _ (our_chunk seq lt refl (rw is_chunk refl))))
                λ _. pure-Leaves F P f'' _ λ i p. (p, same' ∙ same ∙ here)

    -- What is left of the queue.
    pub record Sent (n : ℕ) (rest : List ℕ) (f : File) (b : Blast) : Type 0 where
      pub left : b.pending ≡ rest
      pub total : b.total_chunks ≡ n
      pub same_file : f.path ≡ path

    send_front-Leaves :
        (P : Inbox → Type 0) (f : File) (b : Blast) (seq : ℕ) (rest : List ℕ) (start : ℕ)
        → f.path ≡ path
        → seq < s.total_chunks
        → Leaves F P
            (send_front sha s f b seq rest start)
            (λ r i. P i × Sent b.total_chunks rest r.0 r.1)
    unfolding send_front advanced popped
    send_front-Leaves P f b seq rest start here lt =
        >>=-Leaves F (send_one-Leaves P f seq here lt) λ f'. known-Leaves F P _ _ λ same.
          after_stay-Leaves F (now-Stays F) λ t. after_stay-Leaves F (report-Stays F _) λ _.
            after_stay-Leaves F (pause-Stays s.delay rest) λ _.
              pure-Leaves F P _ _ λ i p. (p, record { left = refl; total = refl; same_file = same })

    drain_at-Leaves :
        (total : ℕ) (receiver_addr : SocketAddr) (since : ℕ) (b : Blast)
        → Leaves F
            (Within s.total_chunks total b)
            (drain_at sha receiver_addr since b)
            (Drained F s.total_chunks total receiver_addr)
    unfolding drain_at
    drain_at-Leaves total receiver_addr since b = elim (Bool-cases (leb 16 since)) [
      | inl due ↦ rw due (drain_feedback-Leaves F s.total_chunks total receiver_addr b)
      | inr early ↦ rw early (
          pure-Leaves F _ (b, false) (Drained F s.total_chunks total receiver_addr)
            λ i h. (h, λ f. cc))
    ]

    -- The fuel that the queue and the bytes to come need.
    abbrev Under : ℕ → Blast → Inbox → Type 0
    Under fuel b i = length b.pending + inbox_bytes i < fuel

    module _ (receiver_addr : SocketAddr) (start : ℕ) where
      -- The file, the queue, and whether a FIN has come, at the end of a pass.
      pub record Passed (r : File × Blast × Bool) : Type 0 where
        pub same_file : r.0.path ≡ path
        pub chunks : Chunks s.total_chunks r.1
        pub heard : r.2 ≡ true → FinFrom F receiver_addr

      abbrev pub PassedBy : File × Blast × Bool → Inbox → Type 0
      PassedBy r i = Passed r

      abbrev Goes : ℕ → Type 0
      Goes fuel =
          (f : File) (b : Blast) (since : ℕ)
          → f.path ≡ path
          → Chunks s.total_chunks b
          → Leaves F (Under fuel b) (pending_loop sha fuel s receiver_addr start f b since) PassedBy

      -- What follows a drain.
      Drained-Leaves :
          (n : ℕ)
          → Goes (suc n)
          → (f : File) (since : ℕ) (r : Blast × Bool) → f.path ≡ path
          → Leaves F
              (Drained F s.total_chunks n receiver_addr r)
              (let more = pending_loop sha (suc n) s receiver_addr start f r.0 since in
                if r.1 then pure (f, r.0, true) else more)
              PassedBy
      Drained-Leaves n next f since (b, true) here =
          pure-Leaves F _ _ PassedBy
            λ i (h, heard). record { same_file = here; chunks = h.chunks; heard = heard }
      Drained-Leaves n next f since (b, false) here =
          before-Leaves F _ (λ i. Under (suc n) b i × Chunks s.total_chunks b) PassedBy
            (λ i (h, heard). (omega (arith, h.bounded), h.chunks))
            (known-Leaves F (Under (suc n) b) _ PassedBy (next f b since here))

      round-Leaves :
          (fuel : ℕ)
          → Goes fuel
          → (f : File) (b : Blast) (since : ℕ) (q : List ℕ) → f.path ≡ path
          → Chunks s.total_chunks b
          → b.pending ≡ q
          → Leaves F
              (Under (suc fuel) b)
              (pending_loop sha (suc fuel) s receiver_addr start f b since)
              PassedBy
      unfolding pending_loop
      round-Leaves fuel next f b since [] here v e =
          rw (e, pending_loop)
            (pure-Leaves F _ _ PassedBy
              λ i h. record { same_file = here; chunks = v; heard = λ f. cc })
      round-Leaves zero next f b since (seq ∷ rest) here v e = record {
        at = λ w same h.
            let k : suc (length rest) + inbox_bytes w.inbox < 1 = rw e at h in absurd (omega arith);
      }
      round-Leaves (suc n) next f b since (seq ∷ rest) here v e =
          let exist : All (λ k. k < s.total_chunks) (seq ∷ rest) = rw e at v.exist in
          rw (e, pending_loop)
            (>>=-Leaves F
              (send_front-Leaves (λ i. suc (length rest) + inbox_bytes i < suc (suc n)) f b seq rest
                start here exist.0)
              λ (f', b'). known-Leaves F _ _ PassedBy λ sent.
                before-Leaves F _ (Within s.total_chunks n b') PassedBy
                  (λ i h. record {
                    bounded = rw sent.left (omega (arith, h));
                    chunks = record {
                      same_total = sent.total ∙ v.same_total;
                      exist = rw sent.left exist.1;
                    };
                  })
                  (>>=-Leaves F (drain_at-Leaves n receiver_addr (suc since) b')
                    λ r. Drained-Leaves n next f' (reset_count sha (suc since)) r sent.same_file))

      pending_loop-Leaves : (fuel : ℕ) → Goes fuel
      unfolding pending_loop
      pending_loop-Leaves zero f b since here v = record { at = λ w e h. absurd (omega arith) }
      pending_loop-Leaves (suc fuel) f b since here v =
          round-Leaves fuel (pending_loop-Leaves fuel) f b since b.pending here v refl

      pub send_pending-Leaves :
          (f : File) (b : Blast)
          → f.path ≡ path
          → Chunks s.total_chunks b
          → Leaves F (λ i. Unit) (send_pending sha s f b receiver_addr start) PassedBy
      unfolding send_pending
      send_pending-Leaves f b here v =
          counted-Leaves F (λ i. suc (length b.pending + inbox_bytes i))
            (λ fuel. pending_loop sha fuel s receiver_addr start f b 0) (λ i. Unit) PassedBy
            λ i _.
              before-Leaves F _ (Under (suc (length b.pending + inbox_bytes i)) b) PassedBy
                (λ j e. rw e (omega arith))
                (pending_loop-Leaves (suc (length b.pending + inbox_bytes i)) f b 0 here v)
