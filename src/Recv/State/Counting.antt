-- ===== src/Recv/State/Counting.antt =====
-- How many numbers below a bound a test accepts.
use native.Mathlib.Decide.{ℕ_discrete, dec_le}
use udpcp.Base.{
  ℕ, zero, suc, ◌+◌, ◌≤◌, ◌<◌, ◌≡◌, refl, Bool, true, false, ◌||◌, ◌==◌, if◌then◌else◌, arith,
  Bool-cases, inl, inr,
}

pub count_below : (ℕ → Bool) → ℕ → ℕ
count_below p zero = 0
count_below p (suc n) = count_below p n + (if p n then 1 else 0)

pub count_below-le : (p : ℕ → Bool) (n : ℕ) → count_below p n ≤ n
unfolding count_below
count_below-le p zero = omega arith
count_below-le p (suc n) = ground (arith, count_below-le p n)

-- A full count means that every number is accepted.
pub count_below_full : (p : ℕ → Bool) (n i : ℕ) → count_below p n ≡ n → i < n → p i ≡ true
unfolding count_below
count_below_full p zero i e h = elim h [ ]
count_below_full p (suc n) i e h = elim (Bool-cases (p n)) [
  | inl t ↦ elim (ℕ_discrete i n) [
    | yes here ↦ rw here t
    | no there ↦ count_below_full p n i (ground arith) (omega arith)
  ]
  | inr f ↦ absurd (ground (arith, count_below-le p n))
]

pub count_below_ext :
    (p q : ℕ → Bool) (n : ℕ) → ((i : ℕ) → i < n → p i ≡ q i) → count_below p n ≡ count_below q n
unfolding count_below
count_below_ext p q zero h = refl
count_below_ext p q (suc n) h =
    rw (h n (omega arith), count_below_ext p q n (λ i lt. h i (omega arith)))

-- One number more is counted.
pub count_below_insert :
    (p q : ℕ → Bool) (n k : ℕ)
    → k < n
    → p k ≡ false
    → ((i : ℕ) → q i ≡ (k == i || p i))
    → count_below q n ≡ count_below p n + 1
unfolding count_below
count_below_insert p q zero k h f e = elim h [ ]
count_below_insert p q (suc n) k h f e = elim (ℕ_discrete k n) [
  | yes here ↦ ground (arith, e n, here, f, count_below_ext q p n (λ i lt. ground (arith, e i)))
  | no there ↦ ground (arith, e n, count_below_insert p q n k (omega arith) f e)
]

-- Numbers above a bound of the set add nothing.
pub count_below_bounded :
    (p : ℕ → Bool) (f n : ℕ) → f ≤ n → ((i : ℕ) → p i ≡ true → i < f) → count_below p n ≤ f
unfolding count_below
count_below_bounded p f zero h b = omega arith
count_below_bounded p f (suc n) h b = elim (dec_le f n) [
  | yes fits ↦ ground (arith, b n, count_below_bounded p f n fits b)
  | no top ↦ omega (arith, count_below-le p (suc n))
]

pub count_none : (p : ℕ → Bool) (n : ℕ) → ((i : ℕ) → p i ≡ false) → count_below p n ≡ 0
unfolding count_below
count_none p zero h = refl
count_none p (suc n) h = rw (h n, count_none p n h)

pub count_below_all : (p : ℕ → Bool) (n : ℕ) → ((i : ℕ) → i < n → p i ≡ true) → count_below p n ≡ n
unfolding count_below
count_below_all p zero h = refl
count_below_all p (suc n) h =
    rw (h n (omega arith), count_below_all p n (λ i lt. h i (omega arith))) (omega arith)
