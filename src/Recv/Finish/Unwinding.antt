-- ===== src/Recv/Finish/Unwinding.antt =====
-- A panic that drops the state keeps what is kept.
use udpcp.Base.{ℕ, Option}
use udpcp.Io.{World, Outcome, returned, raised, panicked, waiting, exhausted, Io}
use udpcp.Io.Runs.{Setting, Holds, After, Safe, Any}
use udpcp.Protocol.Hashing.{Sha256}
use udpcp.Recv.State.{ReceiveState}
use udpcp.Recv.Finish.{drop_state, unwound, unwinding}
use udpcp.Recv.Finish.Keeping.{AllOurs, drop_state-Safe}

module _ {A : Type 0} (S : Setting) (n : ℕ) where
  -- However an action ends, it keeps what is kept.
  After-Holds : (Q : A → Type 0) (r : Outcome A × World) → After S n n Q r → Holds S n r.1
  After-Holds Q (returned a, w) h = h.0
  After-Holds Q (raised e, w) h = h
  After-Holds Q (panicked why, w) h = h.0
  After-Holds Q (waiting, w) h = h
  After-Holds Q (exhausted, w) h = absurd h

module _ {A : Type 0} (S : Setting) (n : ℕ) (sha : Sha256) where
  pub unwinding-Safe :
      {act : Io A} {Q : A → Type 0} (o : Option ReceiveState)
      → AllOurs S sha o
      → Safe S n act Q
      → Safe S n (unwinding o act) Q
  unfolding unwinding unwound
  unwinding-Safe {act} {Q} o ours s = record { at = λ w h. at (act w) (s.at w h) }
    where
      at : (r : Outcome A × World) → After S n n Q r → After S n n Q (unwound o r)
      at (returned a, w) h = h
      at (raised e, w) h = h
      at (panicked why, w) (h, e) =
          (After-Holds S n Any (drop_state o w) ((drop_state-Safe S n sha o ours).at w h), e)
      at (waiting, w) h = h
      at (exhausted, w) h = h
