-- ===== src/EndToEnd/Rounds.antt =====
-- One round of repair: NACKs for what is missing, and the chunks that the sender queues for them.
use udpcp.Base.{
  ℕ, ◌<◌, ◌≡◌, refl, sym, inl, inr, List, [], ◌∷◌, ◌++◌, some, true, Bool-cases, All, In, arith,
}
use udpcp.Report.{SocketAddr}
use udpcp.Io.{World, returned}
use udpcp.Protocol.Hashing.{Sha256}
use udpcp.Recv.State.{ReceiveState, full}
use udpcp.Recv.State.Bitmap.{bit_in}
use udpcp.Recv.Gaps.{send_nacks}
use udpcp.Send.Blast.{Blast}
use udpcp.Send.Blast.Queue.{IsQueue}
use udpcp.EndToEnd.Transfer.{
  Running, Running-full, deliver, deliver-Running, payload_of, IsFaithful, Arrives,
}
use udpcp.EndToEnd.Nacks.{absorb_all}
use udpcp.EndToEnd.Repair.{send_nacks-Repaired}

module _ (sha : Sha256) where
  -- The DATA packets that `send_one` makes of a queue.
  abbrev pub data_packets : List ℕ → ReceiveState → List ℕ → List (ℕ × List ℕ)
  data_packets whole s [] = []
  data_packets whole s (seq ∷ rest) = (seq, payload_of sha whole s seq) ∷ data_packets whole s rest

  data_packets-IsFaithful :
      (whole : List ℕ) (s : ReceiveState) (queue : List ℕ)
      → All (IsFaithful sha whole s) (data_packets whole s queue)
  data_packets-IsFaithful whole s [] = tt
  data_packets-IsFaithful whole s (seq ∷ rest) = (inl refl, data_packets-IsFaithful whole s rest)

  Arrives-data_packets :
      (whole : List ℕ) (s : ReceiveState) (seq : ℕ) (queue : List ℕ)
      → In seq queue
      → Arrives sha whole s seq (data_packets whole s queue)
  Arrives-data_packets whole s seq [] i = absurd i
  Arrives-data_packets whole s seq (x ∷ rest) (inl here) = inl (sym here, rw here refl)
  Arrives-data_packets whole s seq (x ∷ rest) (inr later) =
      inr (Arrives-data_packets whole s seq rest later)

  -- A round of repair without losses completes the transfer, in a world without faults: the
  -- receiver's NACKs reach a sender with as many chunks and its queue in order, and when the
  -- packets of the queue that this gives reach the receiver, it is full and its temporary file is
  -- the sender's file, whatever was missing before.
  pub send_nacks-Running-full :
      (whole : List ℕ) (s : ReceiveState) (b : Blast) (receiver_addr addr : SocketAddr) (w : World)
      → Running whole s w
      → IsQueue b
      → b.total_chunks ≡ s.total
      → (ds : List (SocketAddr × List ℕ)) × (u : World) × (send_nacks s addr w ≡ (returned tt, u))
        × (u.sent ≡ w.sent ++ ds)
        × ((t : ReceiveState) × (v : World) × (deliver sha s
                (data_packets whole s (absorb_all receiver_addr b ds).pending)
                u
              ≡ (returned t, v))
            × (full t ≡ true)
            × (v.files t.tmp_path ≡ some whole))
  send_nacks-Running-full whole s b receiver_addr addr w r q total =
      let (ds, events, sends, fits, repaired) =
        send_nacks-Repaired s b receiver_addr addr w r.valid q total r.no_faults in
      let u : World = record w { events = events; sent = w.sent ++ ds } in
      let queue : List ℕ = (absorb_all receiver_addr b ds).pending in
      let run : Running whole s u = record {
        valid = r.valid;
        no_faults = r.no_faults;
        file = r.file;
        on_disk = r.on_disk;
        holds = r.holds;
      } in
      let (t, v, e, after, grow, known) =
        deliver-Running sha whole s (data_packets whole s queue) u run
          (data_packets-IsFaithful whole s queue) in
      let every : (seq : ℕ) → seq < s.total → bit_in t.received seq ≡ true = λ seq h.
        elim (Bool-cases (bit_in s.received seq)) [
          | inl had ↦ grow.no_loss seq had
          | inr missing ↦
              known seq h (
                Arrives-data_packets whole s seq queue
                  ((repaired.members seq).1 (inr (h, missing))))
        ] in
      let (complete, on_disk) =
        Running-full sha whole t v after λ seq h. every seq (omega (arith, grow.same_total)) in
      (ds, u, sends, refl, (t, v, e, complete, on_disk))
