-- ===== src/Io/Runs.antt =====
-- A logic for actions: what they keep of the world, what they return, and that their fuel is
-- enough. They panic only where an instant overflows, and keep the same then.
pub mod Calls
pub mod Cases
pub mod Rounds
use udpcp.Base.{
  ℕ, zero, suc, ◌+◌, ◌≤◌, ◌<◌, ◌≡◌, refl, sym, subst, ◌⊎◌, inl, inr, List, [], ◌∷◌, ◌++◌, ◌≢◌,
  Option, none, some, Bool, true, false, length, All, arith, if◌then◌else◌,
}
use udpcp.Error.{IoError, Result, ok, err}
use udpcp.Report.{SocketAddr}
use udpcp.Io.{
  World, Arrival, datagram, failure, Outcome, returned, raised, panicked, waiting, exhausted, Io,
  instant_overflow, ◌>>=◌, ◌>>◌, continue, attempt, ignore, pure, raise, or_panic, syscall,
  recv_from,
}
use udpcp.Protocol.Replies.{IsReply}
use udpcp.Io.Disk.{FilePath, Files}

-- What is assumed of every datagram to come, what is kept of the files and the datagrams sent, and
-- what is known of the final name and the hash of a transfer. A reply that is no FIN may be sent at
-- any time.
pub record Setting : Type 1 where
  pub Told : List ℕ → Type 0
  pub Kept : Files → List (SocketAddr × List ℕ) → Type 0
  pub Origin : FilePath → List ℕ → Type 0
  pub calm :
      (addr : SocketAddr) (d : List ℕ) (files : Files) (sent : List (SocketAddr × List ℕ))
      → IsReply d
      → Kept files sent
      → Kept files (sent ++ (addr, d) ∷ [])

abbrev pub IsTold : Setting → ℕ × Arrival → Type 0
IsTold S (t, datagram d from) = S.Told d
IsTold S (t, failure e) = Unit

-- The socket blocks, fewer than `n` arrivals are to come and are as assumed, and the files and the
-- datagrams sent are as kept.
pub record Fits (S : Setting) (n : ℕ) (nonblocking : Bool) (inbox : List (ℕ × Arrival))
    (files : Files) (sent : List (SocketAddr × List ℕ)) : Type 0 where
  pub blocks : nonblocking ≡ false
  pub few : length inbox < n
  pub told : All (IsTold S) inbox
  pub kept : S.Kept files sent

abbrev pub Holds : Setting → ℕ → World → Type 0
Holds S n w = Fits S n w.nonblocking w.inbox w.files w.sent

pub Holds-mono : (S : Setting) {m n : ℕ} (w : World) → m ≤ n → Holds S m w → Holds S n w
Holds-mono S w h k = record {
  blocks = k.blocks;
  few = omega (arith, k.few);
  told = k.told;
  kept = k.kept;
}

abbrev pub AfterTo :
    {A : Type 0} → Setting → ℕ → ℕ → (A → Files → Type 0) → Outcome A × World → Type 0
AfterTo S m n Q (returned a, v) = Holds S n v × Q a v.files
AfterTo S m n Q (raised e, v) = Holds S m v
AfterTo S m n Q (waiting, v) = Holds S m v
AfterTo S m n Q (panicked why, v) = Holds S m v × (why ≡ instant_overflow)
AfterTo S m n Q (exhausted, v) = ⊥

-- From fewer than `m` arrivals to fewer than `n` where the action returns, with a value and files in
-- `Q`.
pub record RunsTo {A : Type 0} (S : Setting) (m n : ℕ) (act : Io A) (Q : A → Files → Type 0)
    : Type 0 where
  pub at : (w : World) → Holds S m w → AfterTo S m n Q (act w)

abbrev pub SafeTo : {A : Type 0} → Setting → ℕ → Io A → (A → Files → Type 0) → Type 0
SafeTo S n act Q = RunsTo S n n act Q

-- The same where nothing is said of the files.
abbrev pub After : {A : Type 0} → Setting → ℕ → ℕ → (A → Type 0) → Outcome A × World → Type 0
After S m n Q = AfterTo S m n (λ a files. Q a)

abbrev pub Runs : {A : Type 0} → Setting → ℕ → ℕ → Io A → (A → Type 0) → Type 0
Runs S m n act Q = RunsTo S m n act (λ a files. Q a)

abbrev pub Safe : {A : Type 0} → Setting → ℕ → Io A → (A → Type 0) → Type 0
Safe S n act Q = Runs S n n act Q

abbrev pub Any : {A : Type 0} → A → Type 0
Any a = Unit

-- The result of a caught action.
abbrev pub IfOk : {A : Type 0} → (A → Type 0) → Result A IoError → Type 0
IfOk Q (ok a) = Q a
IfOk Q (err e) = Unit

abbrev pub IfOkTo : {A : Type 0} → (A → Files → Type 0) → Result A IoError → Files → Type 0
IfOkTo Q (ok a) files = Q a files
IfOkTo Q (err e) files = Unit

pub weaken-RunsTo :
    {A : Type 0} (S : Setting) {m n : ℕ} {act : Io A} (P Q : A → Files → Type 0)
    → ((a : A) (files : Files) → P a files → Q a files)
    → RunsTo S m n act P
    → RunsTo S m n act Q
weaken-RunsTo {A} S {m} {n} {act} P Q k s = record { at = λ w h. at (act w) (s.at w h) }
  where
    at : (r : Outcome A × World) → AfterTo S m n P r → AfterTo S m n Q r
    at (returned a, v) (h, p) = (h, k a v.files p)
    at (raised x, v) h = h
    at (waiting, v) h = h
    at (panicked why, v) h = h
    at (exhausted, v) h = h

module _ {A : Type 0} (S : Setting) (n : ℕ) where
  pub pure-Safe : (a : A) (Q : A → Type 0) → Q a → Safe S n (pure a) Q
  pure-Safe a Q q = record { at = λ w h. (h, q) }

  pub raise-Safe : (e : IoError) (Q : A → Type 0) → Safe S n (raise e) Q
  raise-Safe e Q = record { at = λ w h. h }

  pub or_panic-Safe :
      (o : Option A) (a : A) (Q : A → Type 0) → o ≡ some a → Q a → Safe S n (or_panic o) Q
  or_panic-Safe o a Q e q = rw e (record { at = λ w h. (h, q) })

  pub syscall-Safe :
      (effect : World → A × World) (Q : A → Type 0)
      → ((w : World) → Holds S n w → Holds S n (effect w).1 × Q (effect w).0)
      → Safe S n (syscall effect) Q
  unfolding syscall
  syscall-Safe effect Q keep = record { at = λ w h. at w w.faults refl h }
    where
      at :
          (w : World) (fs : List (Option IoError))
          → w.faults ≡ fs
          → Holds S n w
          → After S n n Q (syscall effect w)
      at w [] e h =
          let eq : syscall effect w ≡ (returned (effect w).0, (effect w).1) =
            rw (e, syscall) refl in
          subst (After S n n Q) (sym eq) (keep w h)
      at w (none ∷ r) e h =
          let u : World = record w { faults = r } in
          let eq : syscall effect w ≡ (returned (effect u).0, (effect u).1) =
            rw (e, syscall) refl in
          subst (After S n n Q) (sym eq) (keep u h)
      at w (some x ∷ r) e h =
          let eq : syscall effect w ≡ (raised x, record w { faults = r }) = rw (e, syscall) refl in
          subst (After S n n Q) (sym eq) h

  caught-After :
      (act : Io A) (Q : A → Files → Type 0) (w : World) (r : Outcome A × World)
      → act w ≡ r
      → AfterTo S n n Q r
      → AfterTo S n n (IfOkTo Q) (attempt act w)
  caught-After act Q w (returned a, v) e s = rw e s
  caught-After act Q w (raised x, v) e s = rw e (s, tt)
  caught-After act Q w (waiting, v) e s = rw e s
  caught-After act Q w (panicked why, v) e s = rw e s
  caught-After act Q w (exhausted, v) e s = absurd s

  pub attempt-SafeTo :
      (act : Io A) (Q : A → Files → Type 0) → SafeTo S n act Q → SafeTo S n (attempt act) (IfOkTo Q)
  attempt-SafeTo act Q s = record { at = λ w h. caught-After act Q w (act w) refl (s.at w h) }

  pub attempt-Safe :
      (act : Io A) (Q : A → Type 0) → Safe S n act Q → Safe S n (attempt act) (IfOk Q)
  attempt-Safe act Q s = weaken-RunsTo S _ _ at (attempt-SafeTo act (λ a files. Q a) s)
    where
      at : (r : Result A IoError) (files : Files) → IfOkTo (λ a files. Q a) r files → IfOk Q r
      at (ok a) files h = h
      at (err e) files h = h

module _ {A B : Type 0} (S : Setting) where
  continue-After :
      (l m n : ℕ) (Q : A → Files → Type 0) (R : B → Files → Type 0) (r : Outcome A × World)
      (f : A → Io B)
      → m ≤ l
      → AfterTo S l m Q r
      → ((a : A) (w : World) → Holds S m w → Q a w.files → AfterTo S m n R (f a w))
      → AfterTo S l n R (continue r.0 f r.1)
  continue-After l m n Q R (returned a, v) f le (h, q) k = after_mono (f a v) (k a v h q)
    where
      after_mono : (r : Outcome B × World) → AfterTo S m n R r → AfterTo S l n R r
      after_mono (returned b, u) s = s
      after_mono (raised e, u) s = Holds-mono S u le s
      after_mono (waiting, u) s = Holds-mono S u le s
      after_mono (panicked why, u) (s, e) = (Holds-mono S u le s, e)
      after_mono (exhausted, u) s = s
  continue-After l m n Q R (raised e, v) f le s k = s
  continue-After l m n Q R (waiting, v) f le s k = s
  continue-After l m n Q R (panicked why, v) f le s k = s
  continue-After l m n Q R (exhausted, v) f le s k = absurd s

  pub >>=-Runs :
      {l m n : ℕ} {act : Io A} {f : A → Io B} {Q : A → Type 0} {R : B → Files → Type 0}
      → m ≤ l
      → Runs S l m act Q
      → ((a : A) → Q a → RunsTo S m n (f a) R)
      → RunsTo S l n (act >>= f) R
  >>=-Runs {l} {m} {n} {act} {f} {Q} {R} le s k = record {
    at = λ w h.
        continue-After l m n (λ a files. Q a) R (act w) f le (s.at w h) λ a v g q. (k a q).at v g;
  }

  -- What is known of the files is passed on.
  pub >>=-SafeTo :
      {n : ℕ} {act : Io A} {Q : A → Files → Type 0} {R : B → Files → Type 0} (f : A → Io B)
      → SafeTo S n act Q
      → ((a : A) (w : World) → Holds S n w → Q a w.files → AfterTo S n n R (f a w))
      → SafeTo S n (act >>= f) R
  >>=-SafeTo {n} {act} {Q} {R} f s k = record {
    at = λ w h. continue-After n n n Q R (act w) f (omega arith) (s.at w h) k;
  }

  pub >>=-Safe :
      {n : ℕ} {act : Io A} {f : A → Io B} {Q : A → Type 0} {R : B → Files → Type 0}
      → Safe S n act Q
      → ((a : A) → Q a → SafeTo S n (f a) R)
      → SafeTo S n (act >>= f) R
  >>=-Safe s k = >>=-Runs (omega arith) s k

-- What an equation tells of the answer is added to what is known of the action.
pub returning-Runs :
    {A : Type 0} (S : Setting) {m n : ℕ} {act : Io A} (Q : A → Type 0)
    → Runs S m n act Any
    → ((w v : World) (a : A) → act w ≡ (returned a, v) → Q a)
    → Runs S m n act Q
returning-Runs {A} S {m} {n} {act} Q s k = record { at = λ w h. at w (act w) refl (s.at w h) }
  where
    at : (w : World) (r : Outcome A × World) → act w ≡ r → After S m n Any r → After S m n Q r
    at w (returned a, v) e h = (h.0, k w v a e)
    at w (raised x, v) e h = h
    at w (waiting, v) e h = h
    at w (panicked why, v) e h = h
    at w (exhausted, v) e h = h

pub weaken-Runs :
    {A : Type 0} (S : Setting) {m n : ℕ} {act : Io A} (P Q : A → Type 0)
    → ((a : A) → P a → Q a)
    → Runs S m n act P
    → Runs S m n act Q
weaken-Runs S {m} {n} P Q k s = weaken-RunsTo S _ (λ a files. Q a) (λ a files p. k a p) s
