-- ===== src/Base/Bits.antt =====
-- Single bits of a word: `w & (1 << k) != 0` and `w | (1 << k)` read as operations on a set of
-- bit positions, at every width.
use Prim.Native.Nat.{
  ℕ, zero, suc, ◌+◌, ◌*◌, ◌/◌, ◌%◌, ◌^◌, ◌≤◌, min, max, bit_and, bit_or, digits, bit_and-bitwise,
  bit_or-bitwise,
}
use mathlib.Core.Path.{◌≡◌, refl, ap, ◌∙◌}
use mathlib.Core.Logic.{◌≢◌}
use mathlib.Core.Bool.{Bool, false, not, ◌||◌}
use native.Mathlib.Omega.{arith}
use native.Mathlib.Decide.{ℕ_discrete}
use native.Mathlib.Nat.{pow-suc}
use udpcp.Base.Tests.{◌==◌}

abbrev and_fuel : ℕ → ℕ → ℕ → ℕ
and_fuel n a b = digits (λ b. zero) min n a b

abbrev or_fuel : ℕ → ℕ → ℕ → ℕ
or_fuel n a b = digits (λ b. b) max n a b

-- The count of digits to go does not matter once it reaches the first number.
and_fuel_enough : (n m a b : ℕ) → a ≤ n → a ≤ m → and_fuel n a b ≡ and_fuel m a b
and_fuel_enough zero zero a b p q = refl
and_fuel_enough zero (suc m) zero b p q = refl
and_fuel_enough zero (suc m) (suc a) b p q = absurd (omega arith)
and_fuel_enough (suc n) zero zero b p q = refl
and_fuel_enough (suc n) zero (suc a) b p q = absurd (omega arith)
and_fuel_enough (suc n) (suc m) zero b p q = refl
and_fuel_enough (suc n) (suc m) (suc a) b p q =
    omega (arith, and_fuel_enough n m (suc a / 2) (b / 2) (omega arith) (omega arith))

or_fuel_enough : (n m a b : ℕ) → a ≤ n → a ≤ m → or_fuel n a b ≡ or_fuel m a b
or_fuel_enough zero zero a b p q = refl
or_fuel_enough zero (suc m) zero b p q = refl
or_fuel_enough zero (suc m) (suc a) b p q = absurd (omega arith)
or_fuel_enough (suc n) zero zero b p q = refl
or_fuel_enough (suc n) zero (suc a) b p q = absurd (omega arith)
or_fuel_enough (suc n) (suc m) zero b p q = refl
or_fuel_enough (suc n) (suc m) (suc a) b p q =
    omega (arith, or_fuel_enough n m (suc a / 2) (b / 2) (omega arith) (omega arith))

and_of_zero : (b : ℕ) → bit_and 0 b ≡ 0
and_of_zero b = bit_and-bitwise 0 b

or_of_zero : (b : ℕ) → bit_or 0 b ≡ b
or_of_zero b = bit_or-bitwise 0 b

and_halves : (a b : ℕ) → bit_and a b ≡ bit_and (a / 2) (b / 2) * 2 + min (a % 2) (b % 2)
and_halves zero b = omega (arith, and_of_zero b, and_of_zero (b / 2))
and_halves (suc a) b = omega (
  arith,
  bit_and-bitwise (suc a) b,
  bit_and-bitwise (suc a / 2) (b / 2),
  and_fuel_enough a (suc a / 2) (suc a / 2) (b / 2) (omega arith) (omega arith),
)

or_halves : (a b : ℕ) → bit_or a b ≡ bit_or (a / 2) (b / 2) * 2 + max (a % 2) (b % 2)
or_halves zero b = omega (arith, or_of_zero b, or_of_zero (b / 2))
or_halves (suc a) b = omega (
  arith,
  bit_or-bitwise (suc a) b,
  bit_or-bitwise (suc a / 2) (b / 2),
  or_fuel_enough a (suc a / 2) (suc a / 2) (b / 2) (omega arith) (omega arith),
)

and_zero_below : (n a : ℕ) → a ≤ n → bit_and a 0 ≡ 0
and_zero_below n zero h = refl
and_zero_below zero (suc a) h = absurd (omega arith)
and_zero_below (suc n) (suc a) h =
    omega (arith, and_halves (suc a) 0, and_zero_below n (suc a / 2) (omega arith))

or_zero_below : (n a : ℕ) → a ≤ n → bit_or a 0 ≡ a
or_zero_below n zero h = refl
or_zero_below zero (suc a) h = absurd (omega arith)
or_zero_below (suc n) (suc a) h =
    omega (arith, or_halves (suc a) 0, or_zero_below n (suc a / 2) (omega arith))

-- Bit `k` of `w`, as 0 or 1.
bit : ℕ → ℕ → ℕ
bit zero w = w % 2
bit (suc k) w = bit k (w / 2)

bit_bound : (k w : ℕ) → bit k w ≤ 1
unfolding bit
bit_bound zero w = omega arith
bit_bound (suc k) w = bit_bound k (w / 2)

two_pow_pos : (k : ℕ) → 1 ≤ 2 ^ k
two_pow_pos zero = omega arith
two_pow_pos (suc k) = omega (arith, pow-suc 2 k, two_pow_pos k)

and_two_pow : (k w : ℕ) → bit_and w (2 ^ k) ≡ bit k w * 2 ^ k
unfolding bit
and_two_pow zero w = omega (arith, and_halves w 1, and_zero_below (w / 2) (w / 2) (omega arith))
and_two_pow (suc k) w = omega (
  arith,
  pow-suc 2 k,
  and_halves w (2 ^ suc k),
  and_two_pow k (w / 2),
  ap (λ (t : ℕ). bit k (w / 2) * t) (pow-suc 2 k),
  ap (bit_and (w / 2)) half,
)
  where
    half : 2 ^ suc k / 2 ≡ 2 ^ k
    half = omega (arith, pow-suc 2 k)

bit-or_self : (k w : ℕ) → bit k (bit_or w (2 ^ k)) ≡ 1
unfolding bit
bit-or_self zero w = omega (arith, or_halves w 1, or_zero_below (w / 2) (w / 2) (omega arith))
bit-or_self (suc k) w = ap (bit k) down ∙ bit-or_self k (w / 2)
  where
    half : 2 ^ suc k / 2 ≡ 2 ^ k
    half = omega (arith, pow-suc 2 k)

    down : bit_or w (2 ^ suc k) / 2 ≡ bit_or (w / 2) (2 ^ k)
    down = omega (arith, or_halves w (2 ^ suc k), ap (bit_or (w / 2)) half)

bit-or_ne : (j k w : ℕ) → j ≢ k → bit j (bit_or w (2 ^ k)) ≡ bit j w
unfolding bit
bit-or_ne zero zero w h = absurd (h refl)
bit-or_ne (suc j) zero w h =
    ap (bit j) (omega (arith, or_halves w 1, or_zero_below (w / 2) (w / 2) (omega arith)))
bit-or_ne zero (suc k) w h = omega (arith, or_halves w (2 ^ suc k), pow-suc 2 k)
bit-or_ne (suc j) (suc k) w h = ap (bit j) down ∙ bit-or_ne j k (w / 2) (λ e. h (ap suc e))
  where
    half : 2 ^ suc k / 2 ≡ 2 ^ k
    half = omega (arith, pow-suc 2 k)

    down : bit_or w (2 ^ suc k) / 2 ≡ bit_or (w / 2) (2 ^ k)
    down = omega (arith, or_halves w (2 ^ suc k), ap (bit_or (w / 2)) half)

-- `w & (1 << k) != 0`
unfoldable pub test_bit : ℕ → ℕ → Bool
test_bit w k = not (bit_and w (2 ^ k) == 0)

-- `w | (1 << k)`
unfoldable pub set_bit : ℕ → ℕ → ℕ
set_bit w k = bit_or w (2 ^ k)

test_bit-bit : (w k : ℕ) → test_bit w k ≡ (bit k w == 1)
unfolding test_bit
test_bit-bit w k = ground (arith, and_two_pow k w, two_pow_pos k, bit_bound k w)

bit-or : (j k w : ℕ) → (bit j (bit_or w (2 ^ k)) == 1) ≡ (k == j || (bit j w == 1))
bit-or j k w = elim (ℕ_discrete j k) [
  | yes p ↦ rw p (ground (arith, bit-or_self k w))
  | no n ↦ ground (arith, bit-or_ne j k w n)
]

-- Setting bit `k` makes it readable and leaves the others.
pub test_bit-set_bit : (w j k : ℕ) → test_bit (set_bit w k) j ≡ (k == j || test_bit w j)
unfolding set_bit
test_bit-set_bit w j k = rw (test_bit-bit (bit_or w (2 ^ k)) j, test_bit-bit w j) (bit-or j k w)

pub test_bit_zero : (k : ℕ) → test_bit 0 k ≡ false
unfolding test_bit
test_bit_zero k = ground (arith, and_of_zero (2 ^ k))
