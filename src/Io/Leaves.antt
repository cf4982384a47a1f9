-- ===== src/Io/Leaves.antt =====
-- Triples for actions that keep the files as they are, have enough fuel, and may take arrivals from
-- the inbox. They panic only where a deadline cannot be represented.
pub mod Calls
pub mod Reading
use udpcp.Base.{
  ℕ, ◌≤◌, ◌+◌, ◌≡◌, refl, sym, subst, ◌∙◌, List, [], ◌∷◌, ◌++◌, Option, none, some, All,
}
use udpcp.Error.{IoError, Result, ok, err}
use udpcp.Report.{SocketAddr}
use udpcp.Io.{
  World, Arrival, datagram, failure, Outcome, returned, raised, panicked, waiting, exhausted, Io,
  Panic, instant_overflow, ◌>>=◌, ◌>>◌, continue, attempt, ignore, pure, raise, syscall,
}
use udpcp.Io.Disk.{Files}

abbrev pub Inbox : Type 0
Inbox = List (ℕ × Arrival)

-- What an action keeps: the files, and what is known of the datagrams it sends and of those to come;
-- and how long a deadline may be ahead.
pub record Frame : Type 1 where
  pub old : Files
  pub before : List (SocketAddr × List ℕ)
  pub Good : SocketAddr × List ℕ → Type 0
  pub Told : List ℕ → SocketAddr → Type 0
  pub wait : ℕ

abbrev pub IsTold : Frame → ℕ × Arrival → Type 0
IsTold F (t, datagram d from) = F.Told d from
IsTold F (t, failure e) = Unit

pub record Framed (F : Frame) (files : Files) (sent : List (SocketAddr × List ℕ)) (inbox : Inbox)
    : Type 0 where
  pub same : files ≡ F.old
  pub added : List (SocketAddr × List ℕ)
  pub grown : sent ≡ F.before ++ added
  pub good : All F.Good added
  pub told : All (IsTold F) inbox

abbrev pub Kept : Frame → World → Type 0
Kept F w = Framed F w.files w.sent w.inbox

-- The instant that is `wait` from now cannot be represented.
abbrev pub Late : Frame → Panic → World → Type 0
Late F why w = (why ≡ instant_overflow) × (w.instant_end ≤ w.clock + F.wait)

abbrev pub Then : {A : Type 0} → Frame → (A → Inbox → Type 0) → Outcome A × World → Type 0
Then F Q (returned a, v) = Kept F v × Q a v.inbox
Then F Q (raised e, v) = Kept F v
Then F Q (waiting, v) = Kept F v
Then F Q (panicked why, v) = Kept F v × Late F why v
Then F Q (exhausted, v) = ⊥

-- From an inbox in `P` to an inbox in `Q` of the value that is returned.
pub record Leaves {A : Type 0} (F : Frame) (P : Inbox → Type 0) (act : Io A)
    (Q : A → Inbox → Type 0) : Type 0 where
  pub at : (w : World) → Kept F w → P w.inbox → Then F Q (act w)

-- Nothing is claimed of a result.
abbrev pub Anything : {A : Type 0} → A → Inbox → Type 0
Anything a i = Unit

abbrev pub StaysAt : {A : Type 0} → Frame → Inbox → Outcome A × World → Type 0
StaysAt F i (returned a, v) = Kept F v × (v.inbox ≡ i)
StaysAt F i (raised e, v) = Kept F v × (v.inbox ≡ i)
StaysAt F i (waiting, v) = Kept F v
StaysAt F i (panicked why, v) = Kept F v × Late F why v
StaysAt F i (exhausted, v) = ⊥

-- No arrival is taken either.
pub record Stays {A : Type 0} (F : Frame) (act : Io A) : Type 0 where
  pub at : (w : World) → Kept F w → StaysAt F w.inbox (act w)

module _ (F : Frame) where
  pub pure-Stays : {A : Type 0} (a : A) → Stays F (pure a)
  pure-Stays a = record { at = λ w h. (h, refl) }

  pub raise-Stays : {A : Type 0} (e : IoError) → Stays {A = A} F (raise e)
  raise-Stays e = record { at = λ w h. (h, refl) }

  pub syscall-Stays :
      {A : Type 0} (effect : World → A × World)
      → ((w : World) → Kept F w → Kept F (effect w).1 × ((effect w).1.inbox ≡ w.inbox))
      → Stays F (syscall effect)
  unfolding syscall
  syscall-Stays {A} effect k = record { at = λ w h. at w w.faults refl h }
    where
      at :
          (w : World) (fs : List (Option IoError))
          → w.faults ≡ fs
          → Kept F w
          → StaysAt F w.inbox (syscall effect w)
      at w [] e h =
          let eq : syscall effect w ≡ (returned (effect w).0, (effect w).1) =
            rw (e, syscall) refl in
          subst (StaysAt F w.inbox) (sym eq) (k w h)
      at w (none ∷ r) e h =
          let u : World = record w { faults = r } in
          let eq : syscall effect w ≡ (returned (effect u).0, (effect u).1) =
            rw (e, syscall) refl in
          subst (StaysAt F w.inbox) (sym eq) (k u h)
      at w (some x ∷ r) e h =
          let eq : syscall effect w ≡ (raised x, record w { faults = r }) = rw (e, syscall) refl in
          subst (StaysAt F w.inbox) (sym eq) (h, refl)

  caught-StaysAt :
      {A : Type 0} (act : Io A) (w : World) (r : Outcome A × World)
      → act w ≡ r
      → StaysAt F w.inbox r
      → StaysAt F w.inbox (attempt act w)
  caught-StaysAt act w (returned a, v) e s = rw e s
  caught-StaysAt act w (raised x, v) e s = rw e s
  caught-StaysAt act w (waiting, v) e s = rw e s
  caught-StaysAt act w (panicked why, v) e s = rw e s
  caught-StaysAt act w (exhausted, v) e s = absurd s

  pub attempt-Stays : {A : Type 0} (act : Io A) → Stays F act → Stays F (attempt act)
  attempt-Stays act s = record { at = λ w h. caught-StaysAt act w (act w) refl (s.at w h) }

  module _ {A B : Type 0} where
    continue-StaysAt :
        (i : Inbox) (r : Outcome A × World) (f : A → Io B)
        → StaysAt F i r
        → ((a : A) → Stays F (f a))
        → StaysAt F i (continue r.0 f r.1)
    continue-StaysAt i (returned a, v) f (h, e) k =
        subst (λ (j : Inbox). StaysAt F j (f a v)) e ((k a).at v h)
    continue-StaysAt i (raised x, v) f s k = s
    continue-StaysAt i (waiting, v) f s k = s
    continue-StaysAt i (panicked why, v) f s k = s
    continue-StaysAt i (exhausted, v) f s k = absurd s

    pub >>=-Stays :
        {act : Io A} {f : A → Io B} → Stays F act → ((a : A) → Stays F (f a)) → Stays F (act >>= f)
    >>=-Stays {act} {f} s k = record { at = λ w h. continue-StaysAt w.inbox (act w) f (s.at w h) k }

    continue-Then :
        (Q : A → Inbox → Type 0) (R : B → Inbox → Type 0) (r : Outcome A × World) (f : A → Io B)
        → Then F Q r
        → ((a : A) → Leaves F (Q a) (f a) R)
        → Then F R (continue r.0 f r.1)
    continue-Then Q R (returned a, v) f (h, q) k = (k a).at v h q
    continue-Then Q R (raised x, v) f s k = s
    continue-Then Q R (waiting, v) f s k = s
    continue-Then Q R (panicked why, v) f s k = s
    continue-Then Q R (exhausted, v) f s k = absurd s

    pub >>=-Leaves :
        {P : Inbox → Type 0} {act : Io A} {f : A → Io B} {Q : A → Inbox → Type 0}
        {R : B → Inbox → Type 0}
        → Leaves F P act Q
        → ((a : A) → Leaves F (Q a) (f a) R)
        → Leaves F P (act >>= f) R
    >>=-Leaves {P} {act} {f} {Q} {R} s k = record {
      at = λ w h p. continue-Then Q R (act w) f (s.at w h p) k;
    }

  -- What is known of the inbox stays true.
  pub Stays-Leaves :
      {A : Type 0} {act : Io A} (P : Inbox → Type 0) → Stays F act → Leaves F P act (λ a. P)
  Stays-Leaves {A} {act} P s = record { at = λ w h p. at (act w) w.inbox (s.at w h) p }
    where
      at : (r : Outcome A × World) (i : Inbox) → StaysAt F i r → P i → Then F (λ (a : A). P) r
      at (returned a, v) i (h, e) p = (h, rw e p)
      at (raised x, v) i (h, e) p = h
      at (waiting, v) i h p = h
      at (panicked why, v) i h p = h
      at (exhausted, v) i h p = absurd h

  pub pure-Leaves :
      {A : Type 0} (P : Inbox → Type 0) (a : A) (Q : A → Inbox → Type 0)
      → ((i : Inbox) → P i → Q a i)
      → Leaves F P (pure a) Q
  pure-Leaves P a Q k = record { at = λ w h p. (h, k w.inbox p) }

  pub raise-Leaves :
      {A : Type 0} (P : Inbox → Type 0) (e : IoError) (Q : A → Inbox → Type 0)
      → Leaves F P (raise e) Q
  raise-Leaves P e Q = record { at = λ w h p. h }

  -- A step that stays, and what follows.
  pub after_stay-Leaves :
      {A B : Type 0} {act : Io A} {f : A → Io B} {P : Inbox → Type 0} {R : B → Inbox → Type 0}
      → Stays F act
      → ((a : A) → Leaves F P (f a) R)
      → Leaves F P (act >>= f) R
  after_stay-Leaves {A} {B} {act} {f} {P} {R} s k = >>=-Leaves (Stays-Leaves P s) k

  pub before-Leaves :
      {A : Type 0} {act : Io A} (P O : Inbox → Type 0) (Q : A → Inbox → Type 0)
      → ((i : Inbox) → P i → O i)
      → Leaves F O act Q
      → Leaves F P act Q
  before-Leaves P O Q k s = record { at = λ w h p. s.at w h (k w.inbox p) }

  pub after-Leaves :
      {A : Type 0} {act : Io A} {P : Inbox → Type 0} {Q R : A → Inbox → Type 0}
      → ((a : A) (i : Inbox) → Q a i → R a i)
      → Leaves F P act Q
      → Leaves F P act R
  after-Leaves {A} {act} {P} {Q} {R} k s = record { at = λ w h p. at (act w) (s.at w h p) }
    where
      at : (r : Outcome A × World) → Then F Q r → Then F R r
      at (returned a, v) (h, q) = (h, k a v.inbox q)
      at (raised x, v) h = h
      at (waiting, v) h = h
      at (panicked why, v) h = h
      at (exhausted, v) h = absurd h

  -- The body of a loop whose fuel is counted from the inbox.
  pub counted-Leaves :
      {A : Type 0} (fuel : Inbox → ℕ) (body : ℕ → Io A) (P : Inbox → Type 0)
      (Q : A → Inbox → Type 0)
      → ((i : Inbox) → P i → Leaves F (λ (j : Inbox). j ≡ i) (body (fuel i)) Q)
      → Leaves F P (λ w. body (fuel w.inbox) w) Q
  counted-Leaves fuel body P Q k = record { at = λ w h p. (k w.inbox p).at w h refl }

  -- What an equation tells of the answer is added to what is known of the inbox.
  pub told-Leaves :
      {A : Type 0} {act : Io A} (P : Inbox → Type 0) (Q : A → Type 0)
      → Stays F act
      → ((w v : World) (a : A) → Kept F w → act w ≡ (returned a, v) → Q a)
      → Leaves F P act (λ a i. P i × Q a)
  told-Leaves {A} {act} P Q s k = record {
    at = λ w h p. at w h (act w) refl ((Stays-Leaves P s).at w h p);
  }
    where
      at :
          (w : World)
          → Kept F w
          → (r : Outcome A × World) → act w ≡ r
          → Then F (λ a. P) r
          → Then F (λ a i. P i × Q a) r
      at w h (returned a, v) e (g, p) = (g, (p, k w v a h e))
      at w h (raised x, v) e g = g
      at w h (waiting, v) e g = g
      at w h (panicked why, v) e g = g
      at w h (exhausted, v) e g = absurd g

  pub known-Leaves :
      {A : Type 0} {act : Io A} (P : Inbox → Type 0) (K : Type 0) (Q : A → Inbox → Type 0)
      → (K → Leaves F P act Q)
      → Leaves F (λ i. P i × K) act Q
  known-Leaves P K Q k = record { at = λ w h (p, q). (k q).at w h p }
