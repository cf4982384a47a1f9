-- ===== src/Recv/Gaps/Missing.antt =====
-- `collect_missing` finds the chunks that are missing, all of them and no other.
use udpcp.Base.{
  ℕ, zero, suc, ◌+◌, ◌≤◌, ◌<◌, ◌≡◌, refl, inl, inr, ◌↔◌, List, [], ◌∷◌, some, Bool, true, false,
  if◌then◌else◌, length, In, arith, min, Bool-cases, false≢true,
}
use native.Mathlib.Decide.{dec_lt}
use udpcp.Recv.State.{ReceiveState}
use udpcp.Recv.State.Bitmap.{bit_in, is_received_in, Covers}
use udpcp.Recv.State.Valid.{IsValid}
use udpcp.Recv.Gaps.{missing_from, collect_missing}

-- The numbers of `seq..seq + n` that a test rejects, in ascending order.
pub rejected : (ℕ → Bool) → ℕ → ℕ → List ℕ
rejected p seq zero = []
rejected p seq (suc n) = let rest = rejected p (suc seq) n in if p seq then rest else seq ∷ rest

not_first : (p : ℕ → Bool) (seq x : ℕ) → p seq ≡ true → seq ≤ x → p x ≡ false → seq < x
not_first p seq x t a c = elim (dec_lt seq x) [
  | yes q ↦ q
  | no q ↦ let same : seq ≡ x = omega arith in absurd (false≢true cc)
]

In-rejected_first :
    (p : ℕ → Bool) (seq n x : ℕ) (xs : List ℕ)
    → p seq ≡ false
    → In x xs ↔ ((suc seq ≤ x) × (x < suc seq + n) × (p x ≡ false))
    → In x (seq ∷ xs) ↔ ((seq ≤ x) × (x < seq + suc n) × (p x ≡ false))
In-rejected_first p seq n x xs f (forth, back) = (onward, backward)
  where
    onward : In x (seq ∷ xs) → (seq ≤ x) × (x < seq + suc n) × (p x ≡ false)
    onward (inl e) = (omega arith, omega arith, cc)
    onward (inr h) = let (a, b, c) = forth h in (omega arith, omega arith, c)

    backward : (seq ≤ x) × (x < seq + suc n) × (p x ≡ false) → In x (seq ∷ xs)
    backward (a, b, c) = elim (dec_lt seq x) [
      | yes q ↦ inr (back (q, omega arith, c))
      | no q ↦ inl (omega arith)
    ]

pub In-rejected :
    (p : ℕ → Bool) (seq n x : ℕ)
    → In x (rejected p seq n) ↔ ((seq ≤ x) × (x < seq + n) × (p x ≡ false))
unfolding rejected
In-rejected p seq zero x = (λ h. absurd h, λ (a, b, c). absurd (omega arith))
In-rejected p seq (suc n) x = elim (Bool-cases (p seq)) [
  | inl t ↦
      let (forth, back) = In-rejected p (suc seq) n x in
      rw t (
        λ h. let (a, b, c) = forth h in (omega arith, omega arith, c),
        λ (a, b, c). back (not_first p seq x t a c, omega arith, c),
      )
  | inr f ↦ rw f (In-rejected_first p seq n x _ f (In-rejected p (suc seq) n x))
]

missing_from_in :
    (s : ReceiveState) (seq n : ℕ)
    → Covers s
    → seq + n ≤ s.total
    → missing_from s seq n ≡ some (rejected (bit_in s.received) seq n)
unfolding missing_from rejected
missing_from_in s seq zero h p = refl
missing_from_in s seq (suc n) h p = elim (Bool-cases (bit_in s.received seq)) [
  | inl t ↦
      rw
        (
          is_received_in s seq h (omega arith),
          missing_from_in s (suc seq) n h (omega arith),
          t,
          missing_from,
        )
        refl
  | inr f ↦
      rw
        (
          is_received_in s seq h (omega arith),
          missing_from_in s (suc seq) n h (omega arith),
          f,
          missing_from,
        )
        refl
]

pub collect_missing_in :
    (s : ReceiveState) (upto : ℕ)
    → Covers s
    → collect_missing s upto ≡ some (rejected (bit_in s.received) 0 (min upto s.total))
unfolding collect_missing
collect_missing_in s upto h = missing_from_in s 0 (min upto s.total) h (omega arith)

-- Every chunk below `upto` is either missing or counted.
pub length-rejected : (p : ℕ → Bool) (seq n : ℕ) → length (rejected p seq n) ≤ n
unfolding rejected
length-rejected p seq zero = omega arith
length-rejected p seq (suc n) = elim (Bool-cases (p seq)) [
  | inl t ↦ rw t (omega (arith, length-rejected p (suc seq) n))
  | inr f ↦ rw f (omega (arith, length-rejected p (suc seq) n))
]

-- In a valid state `collect_missing` does not panic, and it lists exactly the chunks below `upto`
-- and below the total that were not received.
pub collect_missing-exact :
    (s : ReceiveState) (upto : ℕ)
    → IsValid s
    → (xs : List ℕ) × (collect_missing s upto ≡ some xs)
      × ((x : ℕ) → In x xs ↔ ((x < upto) × (x < s.total) × (bit_in s.received x ≡ false)))
collect_missing-exact s upto v = (
  rejected (bit_in s.received) 0 (min upto s.total),
  collect_missing_in s upto v.consistent.covers,
  λ x.
      let (f, g) = In-rejected (bit_in s.received) 0 (min upto s.total) x in
      (
        λ h. let (a, b, c) = f h in (omega arith, omega arith, c),
        λ (a, b, c). g (omega arith, omega arith, c),
      ),
)
