-- ===== src/Io/Runs/Rounds.antt =====
-- Loops on fuel in the logic of actions: each round that goes on takes an arrival.
use udpcp.Base.{◌≡◌, ℕ, suc, ◌≤◌, Option, none, some, length, arith}
use udpcp.Io.{
  World, Outcome, returned, raised, panicked, waiting, exhausted, Io, instant_overflow, ◌>>=◌,
  continue, pure,
}
use udpcp.Io.Disk.{Files}
use udpcp.Io.Runs.{Setting, Holds, Holds-mono, After, AfterTo, RunsTo, SafeTo, Safe}

-- `Z` is known where the loop ends.
module _ {A : Type 0} (S : Setting) (Z : Files → Type 0) where
  abbrev pub AfterRound : ℕ → (A → Type 0) → Outcome (Option A) × World → Type 0
  AfterRound n Q (returned none, v) = Holds S (suc n) v × Z v.files
  AfterRound n Q (returned (some a), v) = Holds S n v × Q a
  AfterRound n Q (raised e, v) = Holds S (suc n) v
  AfterRound n Q (waiting, v) = Holds S (suc n) v
  AfterRound n Q (panicked why, v) = Holds S (suc n) v × (why ≡ instant_overflow)
  AfterRound n Q (exhausted, v) = ⊥

  -- A round that goes on with a value in `Q`, or ends the loop.
  pub record Round (n : ℕ) (act : Io (Option A)) (Q : A → Type 0) : Type 0 where
    pub at : (w : World) → Holds S (suc n) w → AfterRound n Q (act w)

  -- A state in `Q` where the loop goes on.
  abbrev pub IfSome : (A → Type 0) → Option A → Files → Type 0
  IfSome Q none files = Z files
  IfSome Q (some a) files = Q a

  pub any_some :
      ((files : Files) → Z files)
      → (o : Option A) (files : Files) → Unit {0}
      → IfSome (λ (a : A). Unit) o files
  any_some z none files u = z files
  any_some z (some a) files u = u

  pub some-Safe : (n : ℕ) (a : A) (Q : A → Type 0) → Q a → SafeTo S n (pure (some a)) (IfSome Q)
  some-Safe n a Q q = record { at = λ w h. (h, q) }

  pub stop-Round : (n : ℕ) (Q : A → Type 0) → ((files : Files) → Z files) → Round n (pure none) Q
  stop-Round n Q z = record { at = λ w h. (h, z w.files) }

  pub Runs-Round :
      {n : ℕ} {act : Io (Option A)} {Q : A → Type 0}
      → RunsTo S (suc n) n act (IfSome Q)
      → Round n act Q
  Runs-Round {n} {act} {Q} s = record { at = λ w h. at (act w) (s.at w h) }
    where
      at : (r : Outcome (Option A) × World) → AfterTo S (suc n) n (IfSome Q) r → AfterRound n Q r
      at (returned none, v) (h, z) = (Holds-mono S v (omega arith) h, z)
      at (returned (some a), v) h = h
      at (raised e, v) h = h
      at (waiting, v) h = h
      at (panicked why, v) h = h
      at (exhausted, v) h = h

  pub >>=-Round :
      {B : Type 0} {n : ℕ} {act : Io B} {f : B → Io (Option A)} {P : B → Type 0} {Q : A → Type 0}
      → Safe S (suc n) act P
      → ((b : B) → P b → Round n (f b) Q)
      → Round n (act >>= f) Q
  >>=-Round {B} {n} {act} {f} {P} {Q} s k = record { at = λ w h. at (act w) (s.at w h) }
    where
      at :
          (r : Outcome B × World)
          → After S (suc n) (suc n) P r
          → AfterRound n Q (continue r.0 f r.1)
      at (returned b, v) (h, p) = (k b p).at v h
      at (raised e, v) h = h
      at (waiting, v) h = h
      at (panicked why, v) h = h
      at (exhausted, v) h = h

  pub loop-Safe :
      {B : Type 0} {n : ℕ} {act : Io (Option A)} {Q : A → Type 0} (R : B → Files → Type 0)
      (f : Option A → Io B)
      → Round n act Q
      → ((w : World) → Holds S (suc n) w → Z w.files → AfterTo S (suc n) (suc n) R (f none w))
      → ((a : A) → Q a → SafeTo S n (f (some a)) R)
      → SafeTo S (suc n) (act >>= f) R
  loop-Safe {B} {n} {act} {Q} R f s over on = record { at = λ w h. at (act w) (s.at w h) }
    where
      grown : (r : Outcome B × World) → AfterTo S n n R r → AfterTo S (suc n) (suc n) R r
      grown (returned b, v) (h, q) = (Holds-mono S v (omega arith) h, q)
      grown (raised e, v) h = Holds-mono S v (omega arith) h
      grown (waiting, v) h = Holds-mono S v (omega arith) h
      grown (panicked why, v) (h, e) = (Holds-mono S v (omega arith) h, e)
      grown (exhausted, v) h = h

      at :
          (r : Outcome (Option A) × World)
          → AfterRound n Q r
          → AfterTo S (suc n) (suc n) R (continue r.0 f r.1)
      at (returned none, v) (h, z) = over v h z
      at (returned (some a), v) (h, q) = grown (f (some a) v) ((on a q).at v h)
      at (raised e, v) h = h
      at (waiting, v) h = h
      at (panicked why, v) h = h
      at (exhausted, v) h = h

-- A loop whose fuel is counted from the arrivals to come.
pub counted-Safe :
    {A : Type 0} (S : Setting) (n : ℕ) (body : ℕ → Io A) (Q : A → Files → Type 0)
    → ((fuel : ℕ) → SafeTo S fuel (body fuel) Q)
    → SafeTo S n (λ w. body (suc (length w.inbox)) w) Q
counted-Safe {A} S n body Q s = record {
  at = λ w h.
      let few : Holds S (suc (length w.inbox)) w = record {
        blocks = h.blocks;
        few = omega arith;
        told = h.told;
        kept = h.kept;
      } in
      at (suc (length w.inbox)) (body (suc (length w.inbox)) w) (omega (arith, h.few))
        ((s (suc (length w.inbox))).at w few);
}
  where
    at : (m : ℕ) (r : Outcome A × World) → m ≤ n → AfterTo S m m Q r → AfterTo S n n Q r
    at m (returned a, v) le (h, q) = (Holds-mono S v le h, q)
    at m (raised e, v) le h = Holds-mono S v le h
    at m (waiting, v) le h = Holds-mono S v le h
    at m (panicked why, v) le (h, e) = (Holds-mono S v le h, e)
    at m (exhausted, v) le h = h
