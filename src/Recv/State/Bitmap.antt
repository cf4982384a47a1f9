-- ===== src/Recv/State/Bitmap.antt =====
-- The `received` words as a set of chunk numbers: inside the total no index is out of bounds, and
-- `mark_received` adds one number.
use udpcp.Base.{
  ℕ, ◌/◌, ◌%◌, ◌<◌, ◌≡◌, List, Option, none, some, Bool, false, ◌||◌, ◌==◌, length, get_elem?, set,
  get_elem?_in, get_elem?-set_self, get_elem?-set_ne, get_elem?-replicate, get_elem?_out,
  length-set, replicate, length-replicate, div_ceil, arith,
}
use udpcp.Base.Bits.{test_bit, set_bit, test_bit-set_bit, test_bit_zero}
use udpcp.Base.Words.{div-lt-div_ceil}
use native.Mathlib.Decide.{ℕ_discrete, dec_lt}
use udpcp.Recv.State.{ReceiveState, is_received, mark_received}

word_bit : Option ℕ → ℕ → Bool
word_bit none j = false
word_bit (some w) j = test_bit w (j % 64)

-- Whether the words hold chunk `j`.
pub bit_in : List ℕ → ℕ → Bool
unfolding word_bit
bit_in words j = word_bit (get_elem? words (j / 64)) j

-- There is a word for every chunk.
abbrev pub Covers : ReceiveState → Type 0
Covers s = length s.received ≡ div_ceil s.total 64

pub index_in_bounds :
    (s : ReceiveState) (seq : ℕ) → Covers s → seq < s.total → seq / 64 < length s.received
index_in_bounds s seq h p = omega (arith, div-lt-div_ceil seq s.total 64 (omega arith) p)

pub is_received_in :
    (s : ReceiveState) (seq : ℕ)
    → Covers s
    → seq < s.total
    → is_received s seq ≡ some (bit_in s.received seq)
unfolding is_received bit_in
is_received_in s seq h p =
    let (x, e) = get_elem?_in s.received (seq / 64) (index_in_bounds s seq h p) in
    rw (e, is_received, word_bit)

pub bit_in-set :
    (words : List ℕ) (seq w j : ℕ)
    → get_elem? words (seq / 64) ≡ some w
    → seq / 64 < length words
    → bit_in (set words (seq / 64) (set_bit w (seq % 64))) j ≡ (seq == j || bit_in words j)
unfolding bit_in
bit_in-set words seq w j e h = elim (ℕ_discrete (seq / 64) (j / 64)) [
  | yes same ↦
      rw
        (
          ← same,
          get_elem?-set_self words (seq / 64) (set_bit w (seq % 64)) h,
          e,
          test_bit-set_bit w (j % 64) (seq % 64),
        )
        (ground arith)
  | no differ ↦
      rw (get_elem?-set_ne words (seq / 64) (j / 64) (set_bit w (seq % 64)) differ) (ground arith)
]

-- Marking succeeds, and adds just that chunk.
pub mark_received_in :
    (s : ReceiveState) (seq : ℕ)
    → Covers s
    → seq < s.total
    → (words : List ℕ) × (mark_received s seq ≡ some (record s { received = words }))
      × (length words ≡ length s.received)
      × ((j : ℕ) → bit_in words j ≡ (seq == j || bit_in s.received j))
unfolding mark_received
mark_received_in s seq h p =
    let bound = index_in_bounds s seq h p in
    let (w, e) = get_elem?_in s.received (seq / 64) bound in
    (
      set s.received (seq / 64) (set_bit w (seq % 64)),
      rw (e, mark_received),
      length-set s.received (seq / 64) _,
      λ j. bit_in-set s.received seq w j e bound,
    )

-- A fresh bitmap holds nothing.
pub bit_in-replicate : (n j : ℕ) → bit_in (replicate n 0) j ≡ false
unfolding bit_in
bit_in-replicate n j = elim (dec_lt (j / 64) n) [
  | yes h ↦ rw (get_elem?-replicate {A = ℕ} n (j / 64) 0 h) (test_bit_zero (j % 64))
  | no h ↦
      rw (
        get_elem?_out (replicate {A = ℕ} n 0) (j / 64)
          (omega (arith, length-replicate {A = ℕ} n 0)))
]
