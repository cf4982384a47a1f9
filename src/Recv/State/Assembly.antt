-- ===== src/Recv/State/Assembly.antt =====
-- Assembling a file from its chunks: the invariant through `store`, and the content at the end.
use udpcp.Base.{
  ℕ, suc, ◌+◌, ◌-◌, ◌*◌, ◌/◌, ◌≤◌, ◌<◌, ◌≡◌, ◌≢◌, sym, subst, ◌∙◌, ◌↔◌, ◌⊎◌, inl, inr, List, Option,
  true, false, ==_iff, min, length, get_elem?, arith, get_elem?_ext, write_at, length-write_at,
  get_elem?-write_at_in, get_elem?-write_at_before, get_elem?-write_at_after, take, drop,
  get_elem?-take, get_elem?-drop,
}
use native.Mathlib.Decide.{dec_lt}
use native.Mathlib.Nat.{le-div_iff_mul-le, div-lt_iff_lt-mul}
use udpcp.Base.Words.{div-lt-div_ceil}
use udpcp.Error.{IoError}
use udpcp.Io.{World, returned, raised}
use udpcp.Recv.State.{ReceiveState, store, full, expected_len}
use udpcp.Recv.State.Bitmap.{bit_in}
use udpcp.Recv.State.Counting.{count_below_insert, count_below_full}
use udpcp.Recv.State.Valid.{IsValid, expected_len_lem}
use udpcp.Recv.State.Storing.{stored_state, IsStored, store-cases}

-- Storing a chunk that was missing keeps the invariant.
pub stored_state-IsValid :
    (s : ReceiveState) (seq : ℕ) (words : List ℕ) (g : Option ℕ)
    → IsValid s
    → seq < s.total
    → bit_in s.received seq ≡ false
    → IsStored s seq words g
    → IsValid (stored_state s seq words g)
stored_state-IsValid s seq words g v h f st = record {
  sized = record {
    chunk_positive = v.sized.chunk_positive;
    size_word = v.sized.size_word;
    total_chunks = v.sized.total_chunks;
    total_bounded = v.sized.total_bounded;
  };
  consistent = record {
    covers = st.same_length ∙ v.consistent.covers;
    count_right = omega (
      arith,
      v.consistent.count_right,
      count_below_insert (bit_in s.received) (bit_in words) s.total seq h f st.one_more,
    );
    frontier_bounded = omega (arith, v.consistent.frontier_bounded);
    frontier_above = λ j e. ground (arith, st.one_more j, v.consistent.frontier_above j);
    gap_clock = st.clock_right;
  };
}

-- Whatever the chunk number and the bytes of a DATA packet: when `store` returns a state, that state
-- keeps the invariant (the bitmap covers the chunks, the two counters and the gap clock agree with
-- it), and `store` never panics.
pub store-IsValid :
    (s : ReceiveState) (seq : ℕ) (d : List ℕ) (w : World)
    → IsValid s
    → ((e : IoError) × (v : World) × (store s seq d w ≡ (raised e, v)))
      ⊎ ((t : ReceiveState) × (v : World) × (store s seq d w ≡ (returned t, v)) × IsValid t)
store-IsValid s seq d w v = elim (store-cases s seq d w v) [
  | inl (e, _) ↦ inr (s, w, e, v)
  | inr (h, f, long, inl (e, fs, p, _)) ↦ inl (e, _, p)
  | inr (h, f, long, inr (words, g, u, p, st, _, _, _, _)) ↦
      inr (stored_state s seq words g, u, p, stored_state-IsValid s seq words g v h f st)
]

-- The file holds the content `whole` wherever a chunk was received.
pub record Holds (whole : List ℕ) (s : ReceiveState) (file : List ℕ) : Type 0 where
  pub whole_size : length whole ≡ s.size
  pub file_size : length file ≡ s.size
  pub agrees :
      (i : ℕ)
      → i < s.size
      → bit_in s.received (i / s.chunk_size) ≡ true
      → get_elem? file i ≡ get_elem? whole i

-- Chunk `seq` of a file.
unfoldable pub chunk_of : List ℕ → ℕ → ℕ → List ℕ
chunk_of whole chunk_size seq = take chunk_size (drop (seq * chunk_size) whole)

-- When every chunk was received the file is the content.
pub full-eq :
    (whole : List ℕ) (s : ReceiveState) (file : List ℕ)
    → IsValid s
    → Holds whole s file
    → full s ≡ true
    → file ≡ whole
unfolding full
full-eq whole s file v h e = get_elem?_ext file whole (h.file_size ∙ sym h.whole_size) λ i lt.
    let inside : i < s.size = omega (arith, h.file_size) in
    h.agrees i inside (
      count_below_full (bit_in s.received) s.total (i / s.chunk_size)
        (omega (arith, v.consistent.count_right, (==_iff s.count s.total).0 e))
        (omega (
          arith,
          v.sized.total_chunks,
          div-lt-div_ceil i s.size s.chunk_size v.sized.chunk_positive inside,
        )))

-- A byte lies in chunk `seq`, before it or behind it.
pub place :
    (i seq c : ℕ)
    → 0 < c
    → ((i / c ≡ seq) × (seq * c ≤ i) × (i < seq * c + c))
      ⊎ ((i / c ≢ seq) × ((i < seq * c) ⊎ (seq * c + c ≤ i)))
place i seq c h =
    let low : (seq ≤ i / c) ↔ (seq * c ≤ i) = le-div_iff_mul-le h in
    let high : (i / c < suc seq) ↔ (i < suc seq * c) = div-lt_iff_lt-mul h in
    let next : suc seq * c ≡ seq * c + c = grind arith in
    elim (dec_lt i (seq * c)) [
      | yes before ↦ inr (λ e. absurd (omega (arith, low.0 (omega (arith, e)))), inl before)
      | no after ↦ elim (dec_lt i (seq * c + c)) [
        | yes inside ↦
            inl (
              omega (arith, low.1 (omega arith), high.1 (omega (arith, next))),
              omega arith,
              inside,
            )
        | no behind ↦
            inr (λ e. absurd (omega (arith, next, high.0 (omega (arith, e)))), inr (omega arith))
      ]
    ]

-- Writing the right bytes of chunk `seq` keeps the agreement.
pub write_at-Holds :
    (whole file : List ℕ) (s : ReceiveState) (seq : ℕ) (words : List ℕ) (g : Option ℕ)
    → IsValid s
    → Holds whole s file
    → seq < s.total
    → length (chunk_of whole s.chunk_size seq) ≡ expected_len s seq
    → IsStored s seq words g
    → Holds whole
        (stored_state s seq words g)
        (write_at file (seq * s.chunk_size) (chunk_of whole s.chunk_size seq))
write_at-Holds whole file s seq words g v h below long st = record {
  whole_size = h.whole_size;
  file_size =
      length-write_at file (seq * s.chunk_size) d (omega (arith, long, fits, h.file_size))
      ∙ h.file_size;
  agrees = λ i lt e. elim (place i seq s.chunk_size v.sized.chunk_positive) [
    | inl (here, lo, hi) ↦
        let k : ℕ = i - seq * s.chunk_size in
        let e' : seq * s.chunk_size + k ≡ i = omega (arith, lo) in
        subst (λ (n : ℕ). get_elem? (write_at file (seq * s.chunk_size) d) n ≡ get_elem? whole n) e'
          (get_elem?-write_at_in file (seq * s.chunk_size) k d (omega (arith, long, lens))
            ∙ unfold chunk_of in
              get_elem?-take s.chunk_size k _ (omega (arith, lo, hi))
              ∙ get_elem?-drop (seq * s.chunk_size) k whole)
    | inr (there, inl before) ↦
        get_elem?-write_at_before file (seq * s.chunk_size) i d before (omega (arith, h.file_size))
        ∙ h.agrees i lt (ground (arith, st.one_more (i / s.chunk_size)))
    | inr (there, inr behind) ↦
        get_elem?-write_at_after file (seq * s.chunk_size) i d (omega (arith, long, fits))
        ∙ h.agrees i lt (ground (arith, st.one_more (i / s.chunk_size)))
  ];
}
  where
    d : List ℕ
    d = chunk_of whole s.chunk_size seq

    lens :
        (expected_len s seq ≡ min (s.size - seq * s.chunk_size) s.chunk_size)
        × (0 < expected_len s seq)
        × (seq * s.chunk_size + expected_len s seq ≤ s.size)
    lens = expected_len_lem s seq v.sized below

    fits : (expected_len s seq ≤ s.chunk_size) × (seq * s.chunk_size + expected_len s seq ≤ s.size)
    fits = omega (arith, lens)
