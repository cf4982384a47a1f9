-- ===== src/Send/Blast/Leaving.antt =====
-- `drain_feedback` reads what has arrived: its fuel is enough, and the queue grows by no more than
-- the bytes that were read.
use udpcp.Base.{
  ◌≡◌, ℕ, zero, suc, ◌+◌, ◌≤◌, ◌<◌, inl, inr, List, Bool, true, false, Bool-cases, length, arith,
  if◌then◌else◌,
}
use udpcp.Error.{IoError, Result, ok, err, is_would_block}
use udpcp.Report.{SocketAddr}
use udpcp.Io.{pure, raise, ◌>>=◌, ◌>>◌, set_nonblocking}
use udpcp.Io.Leaves.{
  Frame, known-Leaves, Inbox, Leaves, >>=-Leaves, after_stay-Leaves, before-Leaves, pure-Leaves,
  raise-Leaves, counted-Leaves,
}
use udpcp.Io.Leaves.Calls.{Took, attempt-recv_from-Leaves, set_nonblocking-Stays}
use udpcp.Send.Blast.{Blast, absorb, drain_loop, drain_feedback}
use udpcp.Send.Chunks.{inbox_bytes}
use udpcp.Send.Blast.Absorbing.{length-absorb, Chunks, absorb-Chunks, FinFrom, absorb_fin}

-- The queue and the bytes to come are at most `total`.
pub record Within (n total : ℕ) (b : Blast) (i : Inbox) : Type 0 where
  pub bounded : length b.pending + inbox_bytes i ≤ total
  pub chunks : Chunks n b

module _ (F : Frame) (n : ℕ) (total : ℕ) where
  -- The same for the answer of a drain, and a FIN where it says so.
  abbrev pub Drained : SocketAddr → Blast × Bool → Inbox → Type 0
  Drained addr r i = Within n total r.0 i × (r.1 ≡ true → FinFrom F addr)

  drain_error :
      (addr : SocketAddr) (b : Blast) (e : IoError)
      → Leaves F
          (Within n total b)
          (if is_would_block e then pure (b, false) else (set_nonblocking false >> raise e))
          (Drained addr)
  drain_error addr b e = elim (Bool-cases (is_would_block e)) [
    | inl over ↦ rw over (pure-Leaves F _ (b, false) (Drained addr) λ i h. (h, λ f. cc))
    | inr bad ↦
        rw bad (
          after_stay-Leaves F (set_nonblocking-Stays F false)
            λ _. raise-Leaves F _ e (Drained addr))
  ]

  abbrev Ready : ℕ → Blast → Inbox → Type 0
  Ready fuel b i = Within n total b i × (length i < fuel)

  Within-error :
      (fuel : ℕ) (b : Blast) (e : IoError) (i : Inbox)
      → Took F (Ready fuel b) (err e) i
      → Within n total b i
  unfolding inbox_bytes
  Within-error fuel b e i (inl (t, (h, few))) = record { bounded = h.bounded; chunks = h.chunks }
  Within-error fuel b e i (inr (same, (h, few))) = h

  -- The queue takes what the datagram gives back.
  Ready-absorb :
      (receiver_addr : SocketAddr) (fuel : ℕ) (b : Blast) (d : List ℕ) (from : SocketAddr)
      (i : Inbox)
      → Took F (Ready (suc fuel) b) (ok (d, from)) i
      → Ready fuel (absorb receiver_addr b d from).0 i
  unfolding inbox_bytes
  Ready-absorb receiver_addr fuel b d from i (told, (t, (h, few))) = (
    record {
      bounded = omega (arith, length-absorb receiver_addr b d from, h.bounded);
      chunks = absorb-Chunks n receiver_addr b d from h.chunks;
    },
    omega arith,
  )

  module _ (receiver_addr : SocketAddr) where
    drain_loop-Leaves :
        (fuel : ℕ) (b : Blast)
        → Leaves F (Ready fuel b) (drain_loop fuel receiver_addr b) (Drained receiver_addr)
    unfolding drain_loop
    drain_loop-Leaves zero b = record { at = λ w e (h, few). absurd (omega arith) }
    drain_loop-Leaves (suc fuel) b =
        >>=-Leaves F (attempt-recv_from-Leaves F _) (at (λ b'. drain_loop-Leaves fuel b'))
      where
        at :
            ((b' : Blast)
              → Leaves F (Ready fuel b') (drain_loop fuel receiver_addr b') (Drained receiver_addr))
            → (r : Result (List ℕ × SocketAddr) IoError)
            → Leaves F
                (Took F (Ready (suc fuel) b) r)
                (elim r [
                  | err e ↦
                      if is_would_block e
                      then pure (b, false)
                      else (set_nonblocking false >> raise e)
                  | ok (d, from) ↦
                      let (b', saw_fin) = absorb receiver_addr b d from in
                      let more = drain_loop fuel receiver_addr b' in
                      if saw_fin then pure (b', true) else more
                ])
                (Drained receiver_addr)
        at next (err e) =
            before-Leaves F _ (Within n total b) (Drained receiver_addr)
              (Within-error (suc fuel) b e) (drain_error receiver_addr b e)
        at next (ok (d, from)) =
            let b' : Blast = (absorb receiver_addr b d from).0 in
            before-Leaves F _ (λ i. Ready fuel b' i × F.Told d from) (Drained receiver_addr)
              (λ i h. (Ready-absorb receiver_addr fuel b d from i h, h.0))
              (known-Leaves F (Ready fuel b') (F.Told d from) (Drained receiver_addr) λ told.
                elim (Bool-cases (absorb receiver_addr b d from).1) [
                  | inl over ↦
                      let heard = absorb_fin F receiver_addr b d from told over in
                      rw over (
                        pure-Leaves F _ (b', true) (Drained receiver_addr)
                          λ i (h, few). (h, λ _. heard))
                  | inr on ↦ rw on (next b')
                ])

    pub drain_feedback-Leaves :
        (b : Blast)
        → Leaves F (Within n total b) (drain_feedback receiver_addr b) (Drained receiver_addr)
    unfolding drain_feedback
    drain_feedback-Leaves b =
        counted-Leaves F (λ i. suc (length i))
          (λ fuel.
            set_nonblocking true
            >> (drain_loop fuel receiver_addr b >>= λ r. set_nonblocking false >> pure r))
          (Within n total b) (Drained receiver_addr)
          λ i h. after_stay-Leaves F (set_nonblocking-Stays F true) λ _.
            before-Leaves F _ (Ready (suc (length i)) b) (Drained receiver_addr)
              (λ j e. rw e (h, omega arith))
              (>>=-Leaves F (drain_loop-Leaves (suc (length i)) b) λ r.
                after_stay-Leaves F (set_nonblocking-Stays F false)
                  λ _. pure-Leaves F _ r (Drained receiver_addr) λ k q. q)
