-- ===== src/Send/Run/Leaving/Passes.antt =====
-- The passes of `run_send`: their fuel is enough, the packets of the session are sent, and they return
-- after a FIN.
use udpcp.Base.{
  ℕ, zero, suc, ◌+◌, ◌≤◌, ◌<◌, ◌≡◌, refl, inl, inr, List, [], ◌∷◌, Bool, true, false, Bool-cases,
  ltb, arith, if◌then◌else◌, ltb-false→le,
}
use udpcp.Report.{SocketAddr}
use udpcp.Io.{◌>>=◌, ◌>>◌}
use udpcp.Io.Disk.{FilePath}
use udpcp.Io.FileOps.{File}
use udpcp.Io.Leaves.{
  Frame, Inbox, Leaves, Stays, pure-Stays, raise-Stays, >>=-Stays, >>=-Leaves, Stays-Leaves,
  after_stay-Leaves, raise-Leaves,
}
use udpcp.Io.Leaves.Reading.{content}
use udpcp.Io.Leaves.Calls.{now-Stays, report-Stays, ignore-Stays}
use udpcp.Protocol.{done, fin_ack, send_control}
use udpcp.Protocol.Hashing.{Sha256}
use udpcp.Send.Session.{SendSession}
use udpcp.Send.Blast.{Blast, new, enqueue}
use udpcp.Send.Feedback.{Feedback, complete, retransmit, collect_feedback}
use udpcp.Send.Feedback.Leaving.{Answered, collect_feedback-Leaves}
use udpcp.Send.Chunks.Leaving.{PassedBy, send_control-Stays, send_pending-Leaves}
use udpcp.Send.Blast.Absorbing.{Chunks, FinFrom, enqueue-Chunks, new-Chunks}
use udpcp.Send.Packets.{Allows, our_done, our_fin_ack, control_bytes}
use udpcp.Send.Run.{finish, announce_pass, give_up, passes_loop, transfer}

module _ (F : Frame) where
  finish-Stays :
      (addr : SocketAddr) → F.Good (addr, control_bytes fin_ack 0) → Stays F (finish addr)
  unfolding finish
  finish-Stays addr ours =
      >>=-Stays F (ignore-Stays F _ (send_control-Stays F addr fin_ack 0 ours))
        λ _. report-Stays F _

  announce_pass-Stays : (pass : ℕ) (b : Blast) → Stays F (announce_pass pass b)
  unfolding announce_pass
  announce_pass-Stays pass b = at b.pending refl
    where
      at : (q : List ℕ) → b.pending ≡ q → Stays F (announce_pass pass b)
      at [] e = rw (e, announce_pass) (pure-Stays F tt)
      at (x ∷ rest) e = rw (e, announce_pass) (report-Stays F _)

  give_up-Stays : (passes : ℕ) → Stays F (give_up passes)
  unfolding give_up
  give_up-Stays passes = raise-Stays F _

  module _ (sha : Sha256) (s : SendSession) (path : FilePath) (name : List ℕ)
      (ours : Allows sha s (content F path) F name) (receiver_addr : SocketAddr) (start : ℕ) where
    -- A FIN has come.
    abbrev Ended : Unit {0} → Inbox → Type 0
    Ended u i = FinFrom F receiver_addr

    finish-Leaves :
        (P : Inbox → Type 0) → FinFrom F receiver_addr → Leaves F P (finish receiver_addr) Ended
    finish-Leaves P heard = record {
      at = λ w h p.
          ((Stays-Leaves F (λ i. FinFrom F receiver_addr)
              (finish-Stays receiver_addr (ours.each receiver_addr _ (our_fin_ack refl)))).at
            w h heard);
    }

    -- From pass number `pass` on, with fuel for the passes that are left.
    abbrev Goes : ℕ → ℕ → Type 0
    Goes fuel pass =
        (f : File) (b : Blast)
        → f.path ≡ path
        → Chunks s.total_chunks b
        → Leaves F (λ i. Unit) (passes_loop sha fuel s receiver_addr start f b pass) Ended

    again-Leaves :
        (fuel pass : ℕ)
        → (suc pass ≤ s.limits.retransmit_passes → Goes fuel (suc pass))
        → (f : File) (b : Blast) → f.path ≡ path
        → Chunks s.total_chunks b
        → Leaves F
            (λ i. Unit)
            (let again =
                announce_pass (suc pass) b
                >> passes_loop sha fuel s receiver_addr start f b (suc pass) in
              if ltb s.limits.retransmit_passes (suc pass)
              then give_up s.limits.retransmit_passes
              else again)
            Ended
    again-Leaves fuel pass next f b here v =
        elim (Bool-cases (ltb s.limits.retransmit_passes (suc pass))) [
          | inl over ↦ rw over (unfold give_up in raise-Leaves F _ _ Ended)
          | inr on ↦ rw on (
              after_stay-Leaves F (announce_pass-Stays (suc pass) b)
                λ _. next (ltb-false→le _ _ on) f b here v)
        ]

    Answered-Leaves :
        (fuel pass : ℕ)
        → (suc pass ≤ s.limits.retransmit_passes → Goes fuel (suc pass))
        → (f : File) (b : Blast) (feedback : Feedback) → f.path ≡ path
        → Chunks s.total_chunks b
        → Leaves F
            (Answered F s.limits receiver_addr feedback)
            (elim feedback [
              | complete ↦ finish receiver_addr
              | retransmit missing ↦
                  let again =
                    let b'' = enqueue b missing in
                    announce_pass (suc pass) b''
                    >> passes_loop sha fuel s receiver_addr start f b'' (suc pass) in
                  if ltb s.limits.retransmit_passes (suc pass)
                  then give_up s.limits.retransmit_passes
                  else again
            ])
            Ended
    Answered-Leaves fuel pass next f b complete here v = record {
      at = λ w h heard. (finish-Leaves (λ i. Unit) heard).at w h tt;
    }
    Answered-Leaves fuel pass next f b (retransmit missing) here v =
        again-Leaves fuel pass next f (enqueue b missing) here
          (enqueue-Chunks s.total_chunks b missing v)

    passes_loop-Leaves :
        (fuel pass : ℕ) → 0 < fuel → s.limits.retransmit_passes + 2 ≤ fuel + pass → Goes fuel pass
    unfolding passes_loop
    passes_loop-Leaves zero pass some_left enough f b here v = absurd (omega arith)
    passes_loop-Leaves (suc fuel) pass some_left enough f b here v =
        >>=-Leaves F (send_pending-Leaves F sha s path name ours receiver_addr start f b here v)
          (at λ le. passes_loop-Leaves fuel (suc pass) (omega arith) (omega arith))
      where
        at :
            (suc pass ≤ s.limits.retransmit_passes → Goes fuel (suc pass))
            → (r : File × Blast × Bool)
            → Leaves F
                (PassedBy F sha s path name ours receiver_addr start r)
                (let (f', b', saw_fin) = r in
                  let answer =
                    send_control s.target done s.total_chunks
                    >> (collect_feedback receiver_addr s.limits >>= λ feedback. elim feedback [
                      | complete ↦ finish receiver_addr
                      | retransmit missing ↦
                          let again =
                            let b'' = enqueue b' missing in
                            announce_pass (suc pass) b''
                            >> passes_loop sha fuel s receiver_addr start f' b'' (suc pass) in
                          if ltb s.limits.retransmit_passes (suc pass)
                          then give_up s.limits.retransmit_passes
                          else again
                    ]) in
                  if saw_fin then finish receiver_addr else answer)
                Ended
        at next (f', b', true) = record {
          at = λ w h passed. (finish-Leaves (λ i. Unit) (passed.heard refl)).at w h tt;
        }
        at next (f', b', false) = record {
          at = λ w h passed.
              (after_stay-Leaves F
                  (send_control-Stays F s.target done s.total_chunks
                    (ours.each s.target _ (our_done refl refl)))
                  λ _. >>=-Leaves F (collect_feedback-Leaves F s.limits receiver_addr) λ feedback.
                    Answered-Leaves fuel pass next f' b' feedback passed.same_file passed.chunks).at
                w h tt;
        }

  pub transfer-Leaves :
      (sha : Sha256) (s : SendSession) (path : FilePath) (name : List ℕ)
      (ours : Allows sha s (content F path) F name) (receiver_addr : SocketAddr) (f : File)
      → f.path ≡ path
      → Leaves F (λ i. Unit) (transfer sha s receiver_addr f) (λ u i. FinFrom F receiver_addr)
  unfolding transfer
  transfer-Leaves sha s path name ours receiver_addr f here =
      after_stay-Leaves F (now-Stays F) λ start.
        after_stay-Leaves F (announce_pass-Stays 1 (new s.total_chunks)) λ _.
          passes_loop-Leaves sha s path name ours receiver_addr start
            (suc s.limits.retransmit_passes) 1 (omega arith) (omega arith) f (new s.total_chunks)
            here (new-Chunks s.total_chunks)
