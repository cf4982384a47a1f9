-- ===== src/Base/Slices.antt =====
-- Slices of lists, and a file's bytes overwritten in place.
use Prim.Native.Nat.{ℕ, zero, suc, ◌+◌, ◌-◌, ◌≤◌, ◌<◌, min}
use mathlib.Core.Path.{◌≡◌, refl, ap, ◌∙◌}
use mathlib.Core.List.{List, [], ◌∷◌, ◌++◌}
use native.Mathlib.Omega.{arith}
use udpcp.Base.Lists.{length, length-append, get_elem?, take, drop, All}

module _ {ℓ} {A : Type ℓ} where
  -- `&xs[lo..hi]`
  abbrev pub slice : ℕ → ℕ → List A → List A
  slice lo hi xs = take (hi - lo) (drop lo xs)

  pub take-append-drop : (n : ℕ) (xs : List A) → take n xs ++ drop n xs ≡ xs
  take-append-drop zero xs = refl
  take-append-drop (suc n) [] = refl
  take-append-drop (suc n) (x ∷ xs) = rw (take-append-drop n xs)

  pub length-take : (n : ℕ) (xs : List A) → length (take n xs) ≡ min n (length xs)
  length-take zero xs = omega arith
  length-take (suc n) [] = omega arith
  length-take (suc n) (x ∷ xs) = omega (arith, length-take n xs)

  pub length-drop : (n : ℕ) (xs : List A) → length (drop n xs) ≡ length xs - n
  length-drop zero xs = omega arith
  length-drop (suc n) [] = omega arith
  length-drop (suc n) (x ∷ xs) = omega (arith, length-drop n xs)

  pub take_all : (n : ℕ) (xs : List A) → length xs ≤ n → take n xs ≡ xs
  take_all zero [] h = refl
  take_all zero (x ∷ xs) h = absurd (omega arith)
  take_all (suc n) [] h = refl
  take_all (suc n) (x ∷ xs) h = rw (take_all n xs (omega arith))

  pub drop_all : (n : ℕ) (xs : List A) → length xs ≤ n → drop n xs ≡ []
  drop_all zero [] h = refl
  drop_all zero (x ∷ xs) h = absurd (omega arith)
  drop_all (suc n) [] h = refl
  drop_all (suc n) (x ∷ xs) h = drop_all n xs (omega arith)

  pub take_front : (xs ys : List A) (n : ℕ) → n ≡ length xs → take n (xs ++ ys) ≡ xs
  take_front [] ys zero e = refl
  take_front [] ys (suc n) e = absurd (omega arith)
  take_front (x ∷ xs) ys zero e = absurd (omega arith)
  take_front (x ∷ xs) ys (suc n) e = rw (take_front xs ys n (omega arith))

  pub drop_front : (xs ys : List A) (n : ℕ) → n ≡ length xs → drop n (xs ++ ys) ≡ ys
  drop_front [] ys zero e = refl
  drop_front [] ys (suc n) e = absurd (omega arith)
  drop_front (x ∷ xs) ys zero e = absurd (omega arith)
  drop_front (x ∷ xs) ys (suc n) e = drop_front xs ys n (omega arith)

  drop-nil : (k : ℕ) → drop {A = A} k [] ≡ []
  drop-nil zero = refl
  drop-nil (suc k) = refl

  pub drop-drop : (m n : ℕ) (xs : List A) → drop n (drop m xs) ≡ drop (m + n) xs
  drop-drop zero n xs = let e : zero + n ≡ n = omega arith in rw e
  drop-drop (suc m) n [] = rw (drop-nil n, drop-nil (suc m + n))
  drop-drop (suc m) n (x ∷ xs) =
      let e : suc m + n ≡ suc (m + n) = omega arith in rw e (drop-drop m n xs)

  pub take-append-take : (m n : ℕ) (xs : List A) → take m xs ++ take n (drop m xs) ≡ take (m + n) xs
  take-append-take zero n xs = let e : zero + n ≡ n = omega arith in rw e
  take-append-take (suc m) n [] =
      let e : suc m + n ≡ suc (m + n) = omega arith in rw e (take_all n [] (omega arith))
  take-append-take (suc m) n (x ∷ xs) =
      let e : suc m + n ≡ suc (m + n) = omega arith in rw e (ap (◌∷◌ x) (take-append-take m n xs))

  pub get_elem?-drop : (n i : ℕ) (xs : List A) → get_elem? (drop n xs) i ≡ get_elem? xs (n + i)
  get_elem?-drop zero i xs = let e : zero + i ≡ i = omega arith in rw e
  get_elem?-drop (suc n) i [] = refl
  get_elem?-drop (suc n) i (x ∷ xs) =
      let e : suc n + i ≡ suc (n + i) = omega arith in rw e (get_elem?-drop n i xs)

  pub get_elem?-take : (n i : ℕ) (xs : List A) → i < n → get_elem? (take n xs) i ≡ get_elem? xs i
  get_elem?-take zero i xs h = elim h [ ]
  get_elem?-take (suc n) i [] h = refl
  get_elem?-take (suc n) zero (x ∷ xs) h = refl
  get_elem?-take (suc n) (suc i) (x ∷ xs) h = get_elem?-take n i xs (omega arith)

  pub get_elem?-append_left :
      (xs ys : List A) (i : ℕ) → i < length xs → get_elem? (xs ++ ys) i ≡ get_elem? xs i
  get_elem?-append_left [] ys i h = elim h [ ]
  get_elem?-append_left (x ∷ xs) ys zero h = refl
  get_elem?-append_left (x ∷ xs) ys (suc i) h = get_elem?-append_left xs ys i (omega arith)

  pub get_elem?-append_right :
      (xs ys : List A) (i : ℕ) → get_elem? (xs ++ ys) (length xs + i) ≡ get_elem? ys i
  get_elem?-append_right [] ys i = let e : 0 + i ≡ i = omega arith in rw e
  get_elem?-append_right (x ∷ xs) ys i =
      let e : suc (length xs) + i ≡ suc (length xs + i) = omega arith in
      rw e (get_elem?-append_right xs ys i)

module _ {ℓ κ} {A : Type ℓ} (P : A → Type κ) where
  pub All-take : (n : ℕ) (xs : List A) → All P xs → All P (take n xs)
  All-take zero xs h = tt
  All-take (suc n) [] h = tt
  All-take (suc n) (x ∷ xs) h = (h.0, All-take n xs h.1)

  pub All-drop : (n : ℕ) (xs : List A) → All P xs → All P (drop n xs)
  All-drop zero xs h = h
  All-drop (suc n) [] h = tt
  All-drop (suc n) (x ∷ xs) h = All-drop n xs h.1

-- `pwrite`: the bytes at `offset` are replaced, and a gap behind the end is filled with zeros.
unfoldable pub write_at : List ℕ → ℕ → List ℕ → List ℕ
write_at xs zero d = d ++ drop (length d) xs
write_at [] (suc offset) d = 0 ∷ write_at [] offset d
write_at (x ∷ xs) (suc offset) d = x ∷ write_at xs offset d

pub length-write_at :
    (xs : List ℕ) (offset : ℕ) (d : List ℕ)
    → offset + length d ≤ length xs
    → length (write_at xs offset d) ≡ length xs
unfolding write_at
length-write_at xs zero d h =
    omega (arith, length-append d (drop (length d) xs), length-drop (length d) xs)
length-write_at [] (suc offset) d h = absurd (omega arith)
length-write_at (x ∷ xs) (suc offset) d h = omega (arith, length-write_at xs offset d (omega arith))

-- Inside the written range the data is read back.
pub get_elem?-write_at_in :
    (xs : List ℕ) (offset i : ℕ) (d : List ℕ)
    → i < length d
    → get_elem? (write_at xs offset d) (offset + i) ≡ get_elem? d i
unfolding write_at
get_elem?-write_at_in xs zero i d h =
    let e : zero + i ≡ i = omega arith in rw e (get_elem?-append_left d _ i h)
get_elem?-write_at_in [] (suc offset) i d h =
    let e : suc offset + i ≡ suc (offset + i) = omega arith in
    rw e (get_elem?-write_at_in [] offset i d h)
get_elem?-write_at_in (x ∷ xs) (suc offset) i d h =
    let e : suc offset + i ≡ suc (offset + i) = omega arith in
    rw e (get_elem?-write_at_in xs offset i d h)

-- In front of the range, and behind it, nothing changes.
pub get_elem?-write_at_before :
    (xs : List ℕ) (offset i : ℕ) (d : List ℕ)
    → i < offset
    → i < length xs
    → get_elem? (write_at xs offset d) i ≡ get_elem? xs i
unfolding write_at
get_elem?-write_at_before xs zero i d h k = elim h [ ]
get_elem?-write_at_before [] (suc offset) i d h k = elim k [ ]
get_elem?-write_at_before (x ∷ xs) (suc offset) zero d h k = refl
get_elem?-write_at_before (x ∷ xs) (suc offset) (suc i) d h k =
    get_elem?-write_at_before xs offset i d (omega arith) (omega arith)

pub get_elem?-write_at_after :
    (xs : List ℕ) (offset i : ℕ) (d : List ℕ)
    → offset + length d ≤ i
    → get_elem? (write_at xs offset d) i ≡ get_elem? xs i
unfolding write_at
get_elem?-write_at_after xs zero i d h =
    let e : i ≡ length d + (i - length d) = omega arith in
    rw e (get_elem?-append_right d _ (i - length d) ∙ get_elem?-drop (length d) _ xs)
get_elem?-write_at_after [] (suc offset) zero d h = absurd (omega arith)
get_elem?-write_at_after [] (suc offset) (suc i) d h =
    get_elem?-write_at_after [] offset i d (omega arith)
get_elem?-write_at_after (x ∷ xs) (suc offset) zero d h = absurd (omega arith)
get_elem?-write_at_after (x ∷ xs) (suc offset) (suc i) d h =
    get_elem?-write_at_after xs offset i d (omega arith)
