-- ===== src/Recv/State/Storing.antt =====
-- What `store` does on every branch: nothing, a failure, or one chunk written and counted.
use udpcp.Base.{
  ℕ, ◌+◌, ◌-◌, ◌*◌, ◌≤◌, ◌<◌, ◌≡◌, ◌≢◌, refl, ◌⊎◌, inl, inr, List, [], Option, none, some, true,
  false, leb, ltb, ◌==◌, ◌||◌, ◌%◌, ◌^◌, length, max, arith, Bool-cases, Option-cases, le→leb,
  ==_iff,
}
use udpcp.Error.{IoError}
use udpcp.Io.{World, Outcome, returned, raised, report}
use udpcp.Report.{progress}
use udpcp.Io.Disk.{put}
use udpcp.Io.FileOps.{overwritten, torn}
use udpcp.Io.Clock.{now-cases, write_all_at-cases}
use udpcp.Recv.State.{
  ReceiveState, refresh_gap_clock, has_open_gap, counted, expected_len, store_chunk, store,
}
use udpcp.Recv.State.Bitmap.{bit_in, is_received_in, mark_received_in}
use udpcp.Recv.State.Counting.{count_below-le}
use native.Mathlib.Decide.{dec_le, ℕ_discrete}
use udpcp.Recv.State.Valid.{IsValid, is_some}

-- The gap clock is set exactly while there is a gap, and keeps its time as long.
pub refresh_gap_clock-cases :
    (s : ReceiveState) (w : World)
    → (g : Option ℕ) × (c : ℕ) × (r : List ℕ) × (refresh_gap_clock s w
        ≡ (returned (record s { oldest_gap_at = g }), record w { clock = c; ticks = r }))
      × (is_some g ≡ has_open_gap s)
      × (has_open_gap s ≡ true → s.oldest_gap_at ≢ none → g ≡ s.oldest_gap_at)
unfolding refresh_gap_clock
refresh_gap_clock-cases s w = elim (Bool-cases (has_open_gap s)) [
  | inr shut ↦ (none, w.clock, w.ticks, rw (shut, refresh_gap_clock), rw shut, λ e. cc)
  | inl gap ↦ elim (Option-cases s.oldest_gap_at) [
    | inr (t, e) ↦ (some t, w.clock, w.ticks, rw (gap, e, refresh_gap_clock), rw gap, λ _ _. rw e)
    | inl e ↦
        let (t, r, p, _) = now-cases w in
        (some t, t, r, rw (gap, e, refresh_gap_clock, p), rw gap, λ _ h. absurd (h e))
  ]
]

-- The state after chunk `seq` was stored.
abbrev pub stored_state : ReceiveState → ℕ → List ℕ → Option ℕ → ReceiveState
stored_state s seq words g = record s {
  received = words;
  count = s.count + 1;
  frontier = max s.frontier (seq + 1);
  oldest_gap_at = g;
}

-- What is known of the new bitmap and gap clock.
pub record IsStored (s : ReceiveState) (seq : ℕ) (words : List ℕ) (g : Option ℕ) : Type 0 where
  pub same_length : length words ≡ length s.received
  pub one_more : (j : ℕ) → bit_in words j ≡ (seq == j || bit_in s.received j)
  pub clock_right : is_some g ≡ ltb (s.count + 1) (max s.frontier (seq + 1))
  pub clock_kept :
      ltb (s.count + 1) (max s.frontier (seq + 1)) ≡ true
      → s.oldest_gap_at ≢ none
      → g ≡ s.oldest_gap_at

-- The write failed and the state is as it was, or the chunk is in the file and in the state.
abbrev pub StoreChunkCases :
    ReceiveState → ℕ → List ℕ → World → Outcome ReceiveState × World → Type 0
StoreChunkCases s seq d w r =
    let offset = seq * s.chunk_size in
    ((e : IoError) × (fs : List (Option IoError)) × (r ≡ (
      raised e,
      record w {
        faults = fs;
        files = put s.tmp_path (overwritten (w.files s.tmp_path) offset (torn w.reads d)) w.files;
      },
    ))
      × (w.faults ≢ []))
    ⊎ ((words : List ℕ) × (g : Option ℕ) × (v : World) × (r
          ≡ (returned (stored_state s seq words g), v))
        × IsStored s seq words g
        × (v.files ≡ put s.tmp_path (overwritten (w.files s.tmp_path) offset d) w.files)
        × (v.sent ≡ w.sent)
        × (v.inbox ≡ w.inbox)
        × (w.faults ≡ [] → v.faults ≡ []))

counted_lem :
    (s : ReceiveState) (seq : ℕ)
    → s.count + 1 < 2 ^ 32
    → seq + 1 < 2 ^ 32
    → counted s seq ≡ record s { count = s.count + 1; frontier = max s.frontier (seq + 1) }
unfolding counted
counted_lem s seq h k =
    let a : (s.count + 1) % 2 ^ 32 ≡ s.count + 1 = omega arith in
    let b : (seq + 1) % 2 ^ 32 ≡ seq + 1 = omega arith in
    λ i. record s { count = a i; frontier = max s.frontier (b i) }

pub store_chunk-cases :
    (s : ReceiveState) (seq : ℕ) (d : List ℕ) (w : World)
    → IsValid s
    → seq < s.total
    → StoreChunkCases s seq d w (store_chunk s seq d w)
unfolding store_chunk report has_open_gap
store_chunk-cases s seq d w v h = elim (write_all_at-cases s.tmp_path d (seq * s.chunk_size) w) [
  | inl (e, fs, p, n) ↦ inl (e, fs, rw p, n)
  | inr (fs, p, n) ↦
      let (words, m, same, more) = mark_received_in s seq v.consistent.covers h in
      let small : s.count + 1 < 2 ^ 32 =
        omega (arith, v.consistent.count_right, count_below-le (bit_in s.received) s.total) in
      let w1 : World = record w {
        faults = fs;
        files = put s.tmp_path (overwritten (w.files s.tmp_path) (seq * s.chunk_size) d) w.files;
      } in
      let marked : ReceiveState = record s {
        received = words;
        count = s.count + 1;
        frontier = max s.frontier (seq + 1);
      } in
      let (g, c, r, q, right, kept) = refresh_gap_clock-cases marked w1 in
      let w2 : World = record w1 { clock = c; ticks = r } in
      let (t, r', q', _) = now-cases w2 in
      inr (
        words,
        g,
        (report (progress (s.count + 1) s.total s.chunk_size (t - s.start))
            (record w2 { clock = t; ticks = r' })).1,
        rw (p, m, counted_lem (record s { received = words }) seq small (omega arith), q, q'),
        record { same_length = same; one_more = more; clock_right = right; clock_kept = kept },
        refl,
        refl,
        refl,
        n,
      )
]

-- A packet is ignored when its chunk does not exist, is there already, or has the wrong length.
abbrev pub StoreCases : ReceiveState → ℕ → List ℕ → World → Outcome ReceiveState × World → Type 0
StoreCases s seq d w r =
    ((r ≡ (returned s, w))
      × ((s.total ≤ seq) ⊎ (bit_in s.received seq ≡ true) ⊎ (length d ≢ expected_len s seq)))
    ⊎ ((seq < s.total)
        × (bit_in s.received seq ≡ false)
        × (length d ≡ expected_len s seq)
        × StoreChunkCases s seq d w r)

-- In a valid state `store` does one of three things, whatever the bytes. It ignores the packet and
-- changes nothing, when the chunk does not exist, was received already, or has the wrong length. It
-- fails, in a world with a pending fault, after writing at most the bytes at the chunk's offset. Or it writes the bytes at the
-- chunk's offset, marks just that chunk, counts it once and moves the frontier behind it.
pub store-cases :
    (s : ReceiveState) (seq : ℕ) (d : List ℕ) (w : World)
    → IsValid s
    → StoreCases s seq d w (store s seq d w)
unfolding store
store-cases s seq d w v = elim (dec_le s.total seq) [
  | yes beyond ↦ inl (rw (le→leb _ _ beyond), inl beyond)
  | no below ↦
      let h : seq < s.total = omega arith in
      let out : leb s.total seq ≡ false = ground arith in
      let known = is_received_in s seq v.consistent.covers h in
      elim (Bool-cases (bit_in s.received seq)) [
        | inl t ↦ inl (rw (out, known, t), inr (inl t))
        | inr f ↦ elim (ℕ_discrete (length d) (expected_len s seq)) [
          | no wrong ↦
              let e : (length d == expected_len s seq) ≡ false = ground arith in
              inl (rw (out, known, f, e), inr (inr wrong))
          | yes right ↦
              rw (out, known, f, (==_iff _ _).1 right)
                (inr (h, refl, right, store_chunk-cases s seq d w v h))
        ]
      ]
]
