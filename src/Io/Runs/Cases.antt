-- ===== src/Io/Runs/Cases.antt =====
-- Actions that match on a result, in the logic of actions.
use udpcp.Base.{ℕ, suc, List, arith}
use udpcp.Error.{IoError, Result, ok, err}
use udpcp.Report.{SocketAddr}
use udpcp.Io.{World, Io, ◌>>=◌, attempt, recv_from}
use udpcp.Io.Disk.{Files}
use udpcp.Io.Runs.{
  Setting, Holds, AfterTo, RunsTo, Safe, SafeTo, IfOk, IfOkTo, attempt-SafeTo, >>=-SafeTo,
  attempt-Safe, >>=-Safe, >>=-Runs,
}
use udpcp.Io.Runs.Calls.{Heard, attempt-recv_from-Runs}

module _ {A B : Type 0} (S : Setting) where
  -- A match on the result of a call.
  pub try-Safe :
      {n : ℕ} {act : Io A} {Q : A → Type 0} {R : B → Files → Type 0} (f : Result A IoError → Io B)
      → Safe S n act Q
      → ((a : A) → Q a → SafeTo S n (f (ok a)) R)
      → ((e : IoError) → SafeTo S n (f (err e)) R)
      → SafeTo S n (attempt act >>= f) R
  try-Safe {n} {act} {Q} {R} f s good bad = >>=-Safe S (attempt-Safe S n act Q s) at
    where
      at : (r : Result A IoError) → IfOk Q r → SafeTo S n (f r) R
      at (ok a) q = good a q
      at (err e) q = bad e

  -- The same where the files are known after the call.
  pub try-SafeTo :
      {n : ℕ} {act : Io A} {Q : A → Files → Type 0} {R : B → Files → Type 0}
      (f : Result A IoError → Io B)
      → SafeTo S n act Q
      → ((a : A) (w : World) → Holds S n w → Q a w.files → AfterTo S n n R (f (ok a) w))
      → ((e : IoError) → SafeTo S n (f (err e)) R)
      → SafeTo S n (attempt act >>= f) R
  try-SafeTo {n} {act} {Q} {R} f s good bad = >>=-SafeTo S f (attempt-SafeTo S n act Q s) at
    where
      at :
          (r : Result A IoError) (w : World)
          → Holds S n w
          → IfOkTo Q r w.files
          → AfterTo S n n R (f r w)
      at (ok a) w h q = good a w h q
      at (err e) w h q = (bad e).at w h

module _ {B : Type 0} (S : Setting) where
  -- A receive and what is done with its result.
  pub recv-Runs :
      {n : ℕ} {R : B → Files → Type 0} (f : Result (List ℕ × SocketAddr) IoError → Io B)
      → ((d : List ℕ) (from : SocketAddr) → S.Told d → SafeTo S n (f (ok (d, from))) R)
      → ((e : IoError) → SafeTo S n (f (err e)) R)
      → RunsTo S (suc n) n (attempt recv_from >>= f) R
  recv-Runs {n} {R} f good bad = >>=-Runs S (omega arith) (attempt-recv_from-Runs S n) at
    where
      at : (r : Result (List ℕ × SocketAddr) IoError) → Heard S r → SafeTo S n (f r) R
      at (ok (d, from)) q = good d from q
      at (err e) q = bad e
