-- ===== src/Base/Words.antt =====
-- Machine-width integers as big-endian bytes: `to_be_bytes` and `from_be_bytes` at every width,
-- and `div_ceil`.
use Prim.Native.Nat.{ℕ, zero, suc, ◌+◌, ◌-◌, ◌*◌, ◌/◌, ◌%◌, ◌^◌, ◌<◌}
use mathlib.Core.Path.{◌≡◌, refl, ap}
use mathlib.Core.List.{List, [], ◌∷◌, ◌++◌}
use native.Mathlib.Omega.{arith}
use mathlib.Core.Logic.{◌↔◌}
use native.Mathlib.Nat.{pow-suc, le-div_iff_mul-le, div-mul-le_self}
use udpcp.Base.Lists.{length, length-append, All, All-append}

abbrev pub IsByte : ℕ → Type 0
IsByte b = b < 256

abbrev pub u16_mod : ℕ
u16_mod = 2 ^ 16

abbrev pub u32_mod : ℕ
u32_mod = 2 ^ 32

abbrev pub u64_mod : ℕ
u64_mod = 2 ^ 64

-- `v.to_be_bytes()` of a word of `width` bytes.
unfoldable pub to_be_bytes : ℕ → ℕ → List ℕ
to_be_bytes zero v = []
to_be_bytes (suc width) v = to_be_bytes width (v / 256) ++ (v % 256) ∷ []

be_loop : ℕ → List ℕ → ℕ
be_loop acc [] = acc
be_loop acc (b ∷ bs) = be_loop (acc * 256 + b) bs

-- The word that the bytes spell.
unfoldable pub from_be_bytes : List ℕ → ℕ
unfolding be_loop
from_be_bytes bs = be_loop 0 bs

be_loop-snoc :
    (acc : ℕ) (bs : List ℕ) (b : ℕ) → be_loop acc (bs ++ b ∷ []) ≡ be_loop acc bs * 256 + b
unfolding be_loop
be_loop-snoc acc [] b = refl
be_loop-snoc acc (x ∷ bs) b = be_loop-snoc (acc * 256 + x) bs b

pub length-to_be_bytes : (width v : ℕ) → length (to_be_bytes width v) ≡ width
unfolding to_be_bytes
length-to_be_bytes zero v = refl
length-to_be_bytes (suc width) v = omega (
  arith,
  length-append (to_be_bytes width (v / 256)) ((v % 256) ∷ []),
  length-to_be_bytes width (v / 256),
)

pub to_be_bytes-IsByte : (width v : ℕ) → All IsByte (to_be_bytes width v)
unfolding to_be_bytes
to_be_bytes-IsByte zero v = tt
to_be_bytes-IsByte (suc width) v =
    All-append IsByte (to_be_bytes width (v / 256)) _ (to_be_bytes-IsByte width (v / 256))
      (omega arith, tt)

-- A value that fits the width is read back.
pub from-to_be_bytes : (width v : ℕ) → v < 256 ^ width → from_be_bytes (to_be_bytes width v) ≡ v
unfolding from_be_bytes to_be_bytes
from-to_be_bytes zero v h = omega arith
from-to_be_bytes (suc width) v h = omega (
  arith,
  be_loop-snoc 0 (to_be_bytes width (v / 256)) (v % 256),
  from-to_be_bytes width (v / 256) (omega (arith, pow-suc 256 width)),
)

be_loop-lt :
    (acc k : ℕ) (bs : List ℕ) → acc < k → All IsByte bs → be_loop acc bs < k * 256 ^ length bs
unfolding be_loop
be_loop-lt acc k [] h b = omega arith
be_loop-lt acc k (x ∷ bs) h (hx, hb) = omega (
  arith,
  be_loop-lt (acc * 256 + x) (k * 256) bs (omega arith) hb,
  ap (λ (t : ℕ). k * t) (pow-suc 256 (length bs)),
)

-- Bytes spell a word of their width.
pub from_be_bytes-lt : (bs : List ℕ) → All IsByte bs → from_be_bytes bs < 256 ^ length bs
unfolding from_be_bytes
from_be_bytes-lt bs b = omega (arith, be_loop-lt 0 1 bs (omega arith) b)

-- `n.div_ceil(d)`; Rust panics at `d = 0`, and every caller has refused that chunk size.
unfoldable pub div_ceil : ℕ → ℕ → ℕ
div_ceil n d = (n + (d - 1)) / d

-- A number lies below the quotient exactly when that many divisors fall short of `n`.
pub lt-div_ceil : (k n d : ℕ) → 0 < d → (k < div_ceil n d) ↔ (k * d < n)
unfolding div_ceil
lt-div_ceil k n d h = (
  λ p. omega (arith, (le-div_iff_mul-le {x = suc k} {y = n + (d - 1)} h).0 p, next),
  λ p. (le-div_iff_mul-le {x = suc k} {y = n + (d - 1)} h).1 (omega (arith, next)),
)
  where
    next : suc k * d ≡ k * d + d
    next = grind arith

pub div-lt-div_ceil : (i n d : ℕ) → 0 < d → i < n → i / d < div_ceil n d
div-lt-div_ceil i n d h p = (lt-div_ceil (i / d) n d h).1 (omega (arith, div-mul-le_self i d))
