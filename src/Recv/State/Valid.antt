-- ===== src/Recv/State/Valid.antt =====
-- The invariant of `ReceiveState`, and that a fresh state has it.
use udpcp.Base.{
  ℕ, ◌+◌, ◌*◌, ◌-◌, ◌≤◌, ◌<◌, ◌≡◌, refl, min, Option, none, some, Bool, true, false, ltb, arith,
  div_ceil, length, length-replicate, u64_mod,
}
use udpcp.Protocol.{max_total_chunks}
use udpcp.Base.Words.{lt-div_ceil}
use udpcp.Recv.Init.{InitHeader}
use udpcp.Recv.State.{ReceiveState, start_state, expected_len}
use udpcp.Recv.State.Bitmap.{bit_in, bit_in-replicate}
use udpcp.Recv.State.Counting.{count_below, count_none}

abbrev pub is_some {ℓ} : {A : Type ℓ} → Option A → Bool
is_some none = false
is_some (some a) = true

-- The sizes of the transfer fit together; nothing changes them.
pub record IsSized (s : ReceiveState) : Type 0 where
  pub chunk_positive : 0 < s.chunk_size
  pub size_word : s.size < u64_mod
  pub total_chunks : s.total ≡ div_ceil s.size s.chunk_size
  pub total_bounded : s.total ≤ max_total_chunks

-- The bitmap, the two counters and the gap clock agree.
pub record IsConsistent (s : ReceiveState) : Type 0 where
  pub covers : length s.received ≡ div_ceil s.total 64
  pub count_right : s.count ≡ count_below (bit_in s.received) s.total
  pub frontier_bounded : s.frontier ≤ s.total
  pub frontier_above : (seq : ℕ) → bit_in s.received seq ≡ true → seq < s.frontier
  pub gap_clock : is_some s.oldest_gap_at ≡ ltb s.count s.frontier

pub record IsValid (s : ReceiveState) : Type 0 where
  pub sized : IsSized s
  pub consistent : IsConsistent s

-- What the INIT promises to a state.
pub record IsInit (h : InitHeader) : Type 0 where
  pub chunk_positive : 0 < h.chunk_size
  pub size_word : h.size < u64_mod
  pub total_chunks : h.total ≡ div_ceil h.size h.chunk_size
  pub total_bounded : h.total ≤ max_total_chunks

pub start_state-IsValid : (h : InitHeader) (start : ℕ) → IsInit h → IsValid (start_state h start)
unfolding start_state
start_state-IsValid h start v = record {
  sized = record {
    chunk_positive = v.chunk_positive;
    size_word = v.size_word;
    total_chunks = v.total_chunks;
    total_bounded = v.total_bounded;
  };
  consistent = record {
    covers = length-replicate {A = ℕ} (div_ceil h.total 64) 0;
    count_right = rw (count_none _ h.total (bit_in-replicate (div_ceil h.total 64)));
    frontier_bounded = omega arith;
    frontier_above = λ seq e. cc (bit_in-replicate (div_ceil h.total 64) seq);
    gap_clock = refl;
  };
}

-- The chunks below the total start inside the file, so the subtraction in `store` does not wrap.
pub chunk_start :
    (s : ReceiveState) (seq : ℕ) → IsSized s → seq < s.total → seq * s.chunk_size < s.size
chunk_start s seq v h =
    (lt-div_ceil seq s.size s.chunk_size v.chunk_positive).0 (omega (arith, v.total_chunks))

-- For a chunk below the total the length that `store` expects is the chunk size, or what is left of
-- the file when that is less; it is positive, and the chunk ends inside the file. The subtraction on
-- the machine word does not wrap.
pub expected_len_lem :
    (s : ReceiveState) (seq : ℕ)
    → IsSized s
    → seq < s.total
    → (expected_len s seq ≡ min (s.size - seq * s.chunk_size) s.chunk_size)
      × (0 < expected_len s seq)
      × (seq * s.chunk_size + expected_len s seq ≤ s.size)
unfolding expected_len
expected_len_lem s seq v h =
    let inside = chunk_start s seq v h in
    (omega (arith, inside), omega (arith, inside), omega (arith, inside))
