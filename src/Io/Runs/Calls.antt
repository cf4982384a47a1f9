-- ===== src/Io/Runs/Calls.antt =====
-- The calls of the standard library in the logic of actions.
use udpcp.Base.{
  ℕ, suc, ◌≡◌, refl, sym, subst, inl, inr, List, [], ◌∷◌, ◌++◌, Option, none, some, arith, ◌==◌,
  Bool-cases, ltb, ◌+◌,
}
use udpcp.Error.{IoError, Result, ok, err}
use udpcp.Report.{SocketAddr, TransferEvent}
use udpcp.Io.{
  World, Arrival, datagram, failure, waiting, Io, attempt, ignore, now, recv_from, send_to,
  set_read_timeout, local_addr, report, instant_add, deadline_after,
}
use udpcp.Io.Disk.{FilePath, Files, put}
use udpcp.Io.FileOps.{create, set_len, write_all_at, sync_all, remove_file, open_file}
use udpcp.Io.Clock.{write_all_at-cases}
use udpcp.Io.Quiet.{Quiet}
use udpcp.Io.Runs.{
  Setting, Holds, Fits, After, Runs, Safe, Any, pure-Safe, raise-Safe, syscall-Safe, attempt-Safe,
  >>=-Safe,
}

-- The files may change at `p`.
abbrev pub Writable : Setting → FilePath → Type 0
Writable S p =
    (c : Option (List ℕ)) (files : Files) (sent : List (SocketAddr × List ℕ))
    → S.Kept files sent
    → S.Kept (put p c files) sent

-- The datagram may be sent.
abbrev pub Sendable : Setting → SocketAddr → List ℕ → Type 0
Sendable S addr d =
    (files : Files) (sent : List (SocketAddr × List ℕ))
    → S.Kept files sent
    → S.Kept files (sent ++ (addr, d) ∷ [])

-- A datagram is as assumed.
abbrev pub Heard : Setting → Result (List ℕ × SocketAddr) IoError → Type 0
Heard S (ok (d, from)) = S.Told d
Heard S (err e) = Unit

-- A receive that returns has taken an arrival.
pub attempt-recv_from-Runs : (S : Setting) (n : ℕ) → Runs S (suc n) n (attempt recv_from) (Heard S)
unfolding recv_from
attempt-recv_from-Runs S n = record { at = λ w h. at w w.inbox refl h }
  where
    at :
        (w : World) (i : List (ℕ × Arrival))
        → w.inbox ≡ i
        → Holds S (suc n) w
        → After S (suc n) n (Heard S) (attempt recv_from w)
    at w [] e h =
        let eq : attempt recv_from w ≡ (waiting, w) = rw (e, h.blocks, recv_from) refl in
        subst (After S (suc n) n (Heard S)) (sym eq) h
    at w ((t, datagram d from) ∷ r) e h =
        let h' : Fits S (suc n) w.nonblocking ((t, datagram d from) ∷ r) w.files w.sent =
          rw e at h in
        rw (e, recv_from)
          (
            record {
              blocks = h'.blocks;
              few = omega (arith, h'.few);
              told = h'.told.1;
              kept = h'.kept;
            },
            h'.told.0,
          )
    at w ((t, failure x) ∷ r) e h =
        let h' : Fits S (suc n) w.nonblocking ((t, failure x) ∷ r) w.files w.sent = rw e at h in
        rw (e, recv_from)
          (
            record {
              blocks = h'.blocks;
              few = omega (arith, h'.few);
              told = h'.told.1;
              kept = h'.kept;
            },
            tt,
          )

module _ (S : Setting) (n : ℕ) where
  pub ignore-Safe :
      {A : Type 0} (act : Io A) (Q : A → Type 0) → Safe S n act Q → Safe S n (ignore act) Any
  ignore-Safe act Q s = >>=-Safe S (attempt-Safe S n act Q s) λ _ _. pure-Safe S n tt Any tt

  pub now-Safe : Safe S n now Any
  unfolding now
  now-Safe = record { at = λ w h. at w w.ticks refl h }
    where
      at : (w : World) (ts : List ℕ) → w.ticks ≡ ts → Holds S n w → After S n n Any (now w)
      at w [] e h = rw (e, now) (h, tt)
      at w (t ∷ r) e h = rw (e, now) (h, tt)

  pub instant_add-Safe : (t d : ℕ) → Safe S n (instant_add t d) Any
  unfolding instant_add
  instant_add-Safe t d = record {
    at = λ w h. elim (Bool-cases (ltb (t + d) w.instant_end)) [
      | inl fits ↦ rw (fits, instant_add) (h, tt)
      | inr late ↦ rw (late, instant_add) (h, refl)
    ];
  }

  pub deadline_after-Safe : (d : ℕ) → Safe S n (deadline_after d) Any
  unfolding deadline_after
  deadline_after-Safe d = >>=-Safe S now-Safe λ t _. instant_add-Safe t d

  pub send_to-Safe :
      (addr : SocketAddr) (d : List ℕ) → Sendable S addr d → Safe S n (send_to addr d) Any
  unfolding send_to
  send_to-Safe addr d ok_d = syscall-Safe S n _ Any λ w h. (
    record { blocks = h.blocks; few = h.few; told = h.told; kept = ok_d w.files w.sent h.kept },
    tt,
  )

  pub set_read_timeout-Safe : (t : Option ℕ) → Safe S n (set_read_timeout t) Any
  unfolding set_read_timeout
  set_read_timeout-Safe none = syscall-Safe S n _ Any λ w h. (h, tt)
  set_read_timeout-Safe (some d) = elim (Bool-cases (d == 0)) [
    | inl z ↦ rw z (raise-Safe S n _ Any)
    | inr p ↦ rw p (syscall-Safe S n _ Any λ w h. (h, tt))
  ]

  pub local_addr-Safe : Safe S n local_addr Any
  unfolding local_addr
  local_addr-Safe = syscall-Safe S n _ Any λ w h. (h, tt)

  pub report-Safe : (e : TransferEvent) → Safe S n (report e) Any
  unfolding report
  report-Safe e = record { at = λ w h. (h, tt) }

  pub sync_all-Safe : (p : FilePath) → Safe S n (sync_all p) Any
  unfolding sync_all
  sync_all-Safe p = syscall-Safe S n _ Any λ w h. (h, tt)

  pub open_file-Safe : (p : FilePath) → Safe S n (open_file p) Any
  unfolding open_file
  open_file-Safe p = record { at = λ w h. at w (w.files p) refl h }
    where
      at :
          (w : World) (c : Option (List ℕ))
          → w.files p ≡ c
          → Holds S n w
          → After S n n Any (open_file p w)
      at w none e h = rw (e, open_file) h
      at w (some c) e h = rw (e, open_file) ((syscall-Safe S n _ Any λ w h. (h, tt)).at w h)

  pub Quiet-Holds : (w v : World) → Quiet w v → Holds S n w → Holds S n v
  Quiet-Holds w v q h = rw (q.nonblocking, q.inbox, q.files, q.sent) h

  module _ (p : FilePath) (ok_p : Writable S p) where
    with_file :
        (w : World) (c : Option (List ℕ))
        → Holds S n w
        → Fits S n w.nonblocking w.inbox (put p c w.files) w.sent
    with_file w c h = record {
      blocks = h.blocks;
      few = h.few;
      told = h.told;
      kept = ok_p c _ _ h.kept;
    }

    pub create-Safe : Safe S n (create p) Any
    unfolding create
    create-Safe = syscall-Safe S n _ Any λ w h. (with_file w (some []) h, tt)

    pub set_len-Safe : (len : ℕ) → Safe S n (set_len p len) Any
    unfolding set_len
    set_len-Safe len = syscall-Safe S n _ Any λ w h. (with_file w _ h, tt)

    pub write_all_at-Safe : (d : List ℕ) (offset : ℕ) → Safe S n (write_all_at p d offset) Any
    write_all_at-Safe d offset = record {
      at = λ w h. elim (write_all_at-cases p d offset w) [
        | inl (e, fs, eq, _) ↦ rw eq (with_file w _ h)
        | inr (fs, eq, _) ↦ rw eq (with_file w _ h, tt)
      ];
    }

    pub remove_file-Safe : Safe S n (remove_file p) Any
    unfolding remove_file
    remove_file-Safe = record { at = λ w h. at w (w.files p) refl h }
      where
        at :
            (w : World) (c : Option (List ℕ))
            → w.files p ≡ c
            → Holds S n w
            → After S n n Any (remove_file p w)
        at w none e h = rw (e, remove_file) h
        at w (some c) e h =
            rw (e, remove_file) ((syscall-Safe S n _ Any λ w h. (with_file w none h, tt)).at w h)
