-- ===== src/Recv/State/Partial.antt =====
-- What `accept_data` does to the file, without the bitmap: a partial file, of which some bytes are
-- known.
use native.Mathlib.Decide.{dec_lt}
use udpcp.Base.{
  ℕ, ◌+◌, ◌-◌, ◌*◌, ◌/◌, ◌≤◌, ◌<◌, ◌≡◌, ◌≢◌, refl, ◌∙◌, subst, inl, inr, List, [], Option, none,
  some, Bool, true, false, ◌&&◌, ltb, ◌==◌, ==_iff, if◌then◌else◌, length, get_elem?, get_elem?_in,
  get_elem?-write_at_in, get_elem?-write_at_before, get_elem?-write_at_after, min, arith, write_at,
  lt→ltb, le→ltb-false,
}
use udpcp.Base.Words.{lt-div_ceil}
use udpcp.Io.{World}
use udpcp.Recv.State.{ReceiveState, expected_len}
use udpcp.Recv.State.Bitmap.{bit_in}
use udpcp.Recv.State.Valid.{IsValid, expected_len_lem}
use udpcp.Recv.State.Storing.{IsStored, stored_state}
use udpcp.Recv.State.Assembly.{place}

-- The bytes that are known, by position.
abbrev pub Bytes : Type 0
Bytes = ℕ → Option ℕ

abbrev pub is_unknown : Option ℕ → Bool
is_unknown none = true
is_unknown (some b) = false

-- The bytes of chunk `seq` are those of an unknown chunk that lies in the file, all of it.
abbrev pub fits : ℕ → ℕ → Bytes → ℕ → List ℕ → Bool
fits c size p seq d =
    ltb (seq * c) size && (is_unknown (p (seq * c)) && length d == min (size - seq * c) c)

-- The specification of a DATA packet: an unknown chunk becomes known.
abbrev pub offered : ℕ → ℕ → Bytes → ℕ → Option (List ℕ) → Bytes
offered c size p seq none i = p i
offered c size p seq (some d) i =
    if fits c size p seq d && i / c == seq then get_elem? d (i - seq * c) else p i

abbrev pub known_byte : ReceiveState → List ℕ → ℕ → Option ℕ
known_byte s file i = if bit_in s.received (i / s.chunk_size) then get_elem? file i else none

-- The receiver's state and temporary file stand for the partial file `p`.
pub record Stands (p : Bytes) (s : ReceiveState) (w : World) : Type 0 where
  pub valid : IsValid s
  pub no_faults : w.faults ≡ []
  pub file : List ℕ
  pub on_disk : w.files s.tmp_path ≡ some file
  pub file_size : length file ≡ s.size
  pub view : (i : ℕ) → i < s.size → p i ≡ known_byte s file i

-- Nothing is offered that fits.
pub Stands-unfit :
    (p : Bytes) (s : ReceiveState) (w : World) (seq : ℕ) (d : List ℕ)
    → Stands p s w
    → fits s.chunk_size s.size p seq d ≡ false
    → Stands (offered s.chunk_size s.size p seq (some d)) s w
Stands-unfit p s w seq d h e = record {
  valid = h.valid;
  no_faults = h.no_faults;
  file = h.file;
  on_disk = h.on_disk;
  file_size = h.file_size;
  view = λ i lt. rw e (h.view i lt);
}

module _ (p : Bytes) (s : ReceiveState) (w : World) (seq : ℕ) (d : List ℕ) (h : Stands p s w) where
  pub below :
      (seq < s.total → seq * s.chunk_size < s.size) × (seq * s.chunk_size < s.size → seq < s.total)
  below =
      let (a, b) = lt-div_ceil seq s.size s.chunk_size h.valid.sized.chunk_positive in
      (
        λ k. a (omega (arith, h.valid.sized.total_chunks)),
        λ k. omega (arith, b k, h.valid.sized.total_chunks),
      )

  pub at_chunk : seq * s.chunk_size / s.chunk_size ≡ seq
  at_chunk = elim (place (seq * s.chunk_size) seq s.chunk_size h.valid.sized.chunk_positive) [
    | inl (e, _, _) ↦ e
    | inr (_, inl before) ↦ absurd (omega arith)
    | inr (_, inr behind) ↦ absurd (omega (arith, h.valid.sized.chunk_positive))
  ]

  pub outside : s.total ≤ seq → fits s.chunk_size s.size p seq d ≡ false
  outside k = elim (dec_lt (seq * s.chunk_size) s.size) [
    | no out ↦ rw (le→ltb-false (seq * s.chunk_size) s.size (omega arith)) refl
    | yes lt ↦ absurd (omega (arith, below.1 lt))
  ]

  pub first_byte :
      seq * s.chunk_size < s.size
      → p (seq * s.chunk_size) ≡ known_byte s h.file (seq * s.chunk_size)
  first_byte lt = h.view (seq * s.chunk_size) lt

  pub unfit_known : bit_in s.received seq ≡ true → fits s.chunk_size s.size p seq d ≡ false
  unfit_known known = elim (dec_lt (seq * s.chunk_size) s.size) [
    | no out ↦ rw (le→ltb-false (seq * s.chunk_size) s.size (omega arith)) refl
    | yes lt ↦
        let (b, e) = get_elem?_in h.file (seq * s.chunk_size) (omega (arith, h.file_size)) in
        let q : p (seq * s.chunk_size) ≡ some b = rw (first_byte lt, at_chunk, known) e in
        rw (lt→ltb _ _ lt, q) refl
  ]

  pub unfit_length : length d ≢ expected_len s seq → fits s.chunk_size s.size p seq d ≡ false
  unfit_length wrong = elim (dec_lt (seq * s.chunk_size) s.size) [
    | no out ↦ rw (le→ltb-false (seq * s.chunk_size) s.size (omega arith)) refl
    | yes lt ↦
        let (e, _, _) = expected_len_lem s seq h.valid.sized (below.1 lt) in
        let other : length d ≢ min (s.size - seq * s.chunk_size) s.chunk_size = rw e at wrong in
        let q : (length d == min (s.size - seq * s.chunk_size) s.chunk_size) ≡ false =
          ground arith in
        ground (arith, q)
  ]

  -- The chunk that is stored fits.
  fit :
      seq < s.total
      → bit_in s.received seq ≡ false
      → length d ≡ expected_len s seq
      → fits s.chunk_size s.size p seq d ≡ true
  fit lt f long =
      let inside : seq * s.chunk_size < s.size = below.0 lt in
      let q : p (seq * s.chunk_size) ≡ none = rw (first_byte inside, at_chunk, f) refl in
      let (e, _, _) = expected_len_lem s seq h.valid.sized lt in
      let r : (length d == min (s.size - seq * s.chunk_size) s.chunk_size) ≡ true =
        (==_iff _ _).1 (long ∙ e) in
      rw (lt→ltb _ _ inside, q, r) refl

  pub stored_view :
      (words : List ℕ) (g : Option ℕ)
      → seq < s.total
      → bit_in s.received seq ≡ false
      → length d ≡ expected_len s seq
      → IsStored s seq words g
      → (i : ℕ) → i < s.size
      → offered s.chunk_size s.size p seq (some d) i
        ≡ known_byte (stored_state s seq words g) (write_at h.file (seq * s.chunk_size) d) i
  stored_view words g lt f long st i inside =
      elim (place i seq s.chunk_size h.valid.sized.chunk_positive) [
        | inl (here, lo, hi) ↦
            let k : ℕ = i - seq * s.chunk_size in
            let e' : seq * s.chunk_size + k ≡ i = omega (arith, lo) in
            let now_known : bit_in words (i / s.chunk_size) ≡ true =
              ground (arith, st.one_more (i / s.chunk_size)) in
            let mine : (i / s.chunk_size == seq) ≡ true = (==_iff _ _).1 here in
            let (len, _, _) = expected_len_lem s seq h.valid.sized lt in
            let read : get_elem? (write_at h.file (seq * s.chunk_size) d) i ≡ get_elem? d k =
              subst
                (λ (n : ℕ). get_elem? (write_at h.file (seq * s.chunk_size) d) n ≡ get_elem? d k) e'
                (get_elem?-write_at_in h.file (seq * s.chunk_size) k d
                  (omega (arith, long, len, lo, hi, inside))) in
            rw (fit lt f long, mine, now_known, read) refl
        | inr (there, far) ↦
            let same_bit : bit_in words (i / s.chunk_size) ≡ bit_in s.received (i / s.chunk_size) =
              ground (arith, st.one_more (i / s.chunk_size)) in
            let other : (i / s.chunk_size == seq) ≡ false = ground arith in
            let (len, _, _) = expected_len_lem s seq h.valid.sized lt in
            let same_byte : get_elem? (write_at h.file (seq * s.chunk_size) d) i
                ≡ get_elem? h.file i =
              elim far [
                | inl before ↦
                    get_elem?-write_at_before h.file (seq * s.chunk_size) i d before
                      (omega (arith, h.file_size, inside))
                | inr behind ↦
                    get_elem?-write_at_after h.file (seq * s.chunk_size) i d
                      (omega (arith, long, len))
              ] in
            rw (fit lt f long, other, same_bit, same_byte) (h.view i inside)
      ]
