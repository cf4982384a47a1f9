-- ===== src/Recv/State/Keeping.antt =====
-- `new` and `accept_data` touch no file but the temporary one and keep the invariant.
use udpcp.Base.{
  ℕ, ◌≡◌, ◌*◌, ◌<◌, refl, subst, inl, inr, List, Option, none, some, Bool, true, false, Bool-cases,
  leb, ◌==◌, length, if◌then◌else◌, arith, le→leb,
}
use native.Mathlib.Decide.{dec_le}
use udpcp.Error.{IoError, Result, ok, err, InitError}
use udpcp.Io.{World, returned, pure}
use udpcp.Io.Runs.{
  Setting, Safe, Any, pure-Safe, or_panic-Safe, attempt-Safe, >>=-Safe, returning-Runs,
}
use udpcp.Io.Runs.Calls.{
  Writable, now-Safe, report-Safe, create-Safe, set_len-Safe, write_all_at-Safe,
}
use udpcp.Protocol.Hashing.{Sha256}
use udpcp.Recv.Init.{InitHeader}
use udpcp.Recv.State.{
  ReceiveState, refresh_gap_clock, has_open_gap, since, counted, expected_len, store_chunk, store,
  is_received, mark_received, verified_body, accept_data, start_state, begin_state, with_length,
  with_file, open_state, tmp_path_of,
}
use udpcp.Recv.State.Bitmap.{is_received_in, mark_received_in}
use udpcp.Recv.State.Valid.{IsValid}
use udpcp.Recv.State.Storing.{store-cases, stored_state}
use udpcp.Recv.State.Assembly.{stored_state-IsValid}
use udpcp.Recv.State.Starting.{open_state-start}

-- The invariant holds, and the names and the hash are the same.
pub record Follows (s t : ReceiveState) : Type 0 where
  pub valid : IsValid t
  pub same_tmp : t.tmp_path ≡ s.tmp_path
  pub same_final : t.final_path ≡ s.final_path
  pub same_hash : t.hash ≡ s.hash

pub Follows-refl : (s : ReceiveState) → IsValid s → Follows s s
Follows-refl s v = record { valid = v; same_tmp = refl; same_final = refl; same_hash = refl }

store-Follows :
    (s : ReceiveState) (seq : ℕ) (d : List ℕ) (w v : World) (t : ReceiveState)
    → IsValid s
    → store s seq d w ≡ (returned t, v)
    → Follows s t
store-Follows s seq d w v t valid e = elim (store-cases s seq d w valid) [
  | inl (p, _) ↦ let same : s ≡ t = cc in subst (Follows s) same (Follows-refl s valid)
  | inr (h, f, long, inl (x, fs, p, _)) ↦ cc
  | inr (h, f, long, inr (words, g, u, p, st, _, _, _, _)) ↦
      let same : stored_state s seq words g ≡ t = cc in
      subst (Follows s) same (record {
        valid = stored_state-IsValid s seq words g valid h f st;
        same_tmp = refl;
        same_final = refl;
        same_hash = refl;
      })
]

module _ (S : Setting) (n : ℕ) where
  since-Safe : (clock : Option ℕ) → Safe S n (since clock) Any
  unfolding since
  since-Safe none = now-Safe S n
  since-Safe (some t) = pure-Safe S n t Any tt

  refresh_gap_clock-Safe : (s : ReceiveState) → Safe S n (refresh_gap_clock s) Any
  unfolding refresh_gap_clock
  refresh_gap_clock-Safe s = elim (Bool-cases (has_open_gap s)) [
    | inl gap ↦ rw gap (>>=-Safe S (since-Safe s.oldest_gap_at) λ t _. pure-Safe S n _ Any tt)
    | inr shut ↦ rw shut (pure-Safe S n _ Any tt)
  ]

  store_chunk-Safe :
      (s : ReceiveState) (seq : ℕ) (d : List ℕ)
      → IsValid s
      → Writable S s.tmp_path
      → seq < s.total
      → Safe S n (store_chunk s seq d) Any
  unfolding store_chunk
  store_chunk-Safe s seq d v p h =
      let (words, m, _, _) = mark_received_in s seq v.consistent.covers h in
      >>=-Safe S (write_all_at-Safe S n s.tmp_path p d (seq * s.chunk_size)) λ _ _.
        >>=-Safe S (or_panic-Safe S n (mark_received s seq) _ Any m tt) λ marked _.
          >>=-Safe S (refresh_gap_clock-Safe (counted marked seq)) λ s' _.
            >>=-Safe S (now-Safe S n)
              λ t _. >>=-Safe S (report-Safe S n _) λ _ _. pure-Safe S n s' Any tt

  fitting-Safe :
      (s : ReceiveState) (seq : ℕ) (d : List ℕ) (known : Bool)
      → Safe S n (store_chunk s seq d) Any
      → Safe S n
          (if known
            then pure s
            else (if length d == expected_len s seq then store_chunk s seq d else pure s))
          Any
  fitting-Safe s seq d true k = pure-Safe S n s Any tt
  fitting-Safe s seq d false k = elim (Bool-cases (length d == expected_len s seq)) [
    | inl right ↦ rw right k
    | inr wrong ↦ rw wrong (pure-Safe S n s Any tt)
  ]

  store_loosely-Safe :
      (s : ReceiveState) (seq : ℕ) (d : List ℕ)
      → IsValid s
      → Writable S s.tmp_path
      → Safe S n (store s seq d) Any
  unfolding store
  store_loosely-Safe s seq d v p = elim (dec_le s.total seq) [
    | yes beyond ↦ rw (le→leb _ _ beyond) (pure-Safe S n s Any tt)
    | no below ↦
        let h : seq < s.total = omega arith in
        let out : leb s.total seq ≡ false = ground arith in
        rw out (
          >>=-Safe S
            (or_panic-Safe S n (is_received s seq) _ Any
              (is_received_in s seq v.consistent.covers h) tt)
            λ known _. fitting-Safe s seq d known (store_chunk-Safe s seq d v p h))
  ]

  store-Safe :
      (s : ReceiveState) (seq : ℕ) (d : List ℕ)
      → IsValid s
      → Writable S s.tmp_path
      → Safe S n (store s seq d) (Follows s)
  store-Safe s seq d v p =
      returning-Runs S (Follows s) (store_loosely-Safe s seq d v p)
        λ w u t e. store-Follows s seq d w u t v e

  pub accept_data-Safe :
      (sha : Sha256) (s : ReceiveState) (seq : ℕ) (payload : List ℕ)
      → IsValid s
      → Writable S s.tmp_path
      → Safe S n (accept_data sha s seq payload) (Follows s)
  unfolding accept_data
  accept_data-Safe sha s seq payload v p = at (verified_body sha s payload) refl
    where
      at :
          (r : Option (List ℕ))
          → verified_body sha s payload ≡ r
          → Safe S n (accept_data sha s seq payload) (Follows s)
      at none e = rw (e, accept_data) (pure-Safe S n s (Follows s) (Follows-refl s v))
      at (some body) e = rw (e, accept_data) (store-Safe s seq body v p)

  -- A state that `open_state` gives is the one of the header.
  abbrev pub Starts : InitHeader → Result ReceiveState InitError → Type 0
  Starts h (ok s) = (start : ℕ) × (start_state h start ≡ s)
  Starts h (err e) = Unit

  module _ (h : InitHeader) where
    begin_state-Safe : Safe S n (begin_state h) Any
    unfolding begin_state
    begin_state-Safe =
        >>=-Safe S (report-Safe S n _)
          λ _ _. >>=-Safe S (now-Safe S n) λ start _. pure-Safe S n _ Any tt

    with_length-Safe : (r : Result (Unit {0}) IoError) → Safe S n (with_length h r) Any
    unfolding with_length
    with_length-Safe (err e) = pure-Safe S n _ Any tt
    with_length-Safe (ok u) = begin_state-Safe

    module _ (p : Writable S (tmp_path_of h.final_path)) where
      with_file-Safe : (r : Result (Unit {0}) IoError) → Safe S n (with_file h r) Any
      unfolding with_file
      with_file-Safe (err e) = pure-Safe S n _ Any tt
      with_file-Safe (ok u) =
          >>=-Safe S (attempt-Safe S n _ Any (set_len-Safe S n _ p h.size))
            λ r _. with_length-Safe r

      open_loosely-Safe : Safe S n (open_state h) Any
      unfolding open_state
      open_loosely-Safe =
          >>=-Safe S (attempt-Safe S n _ Any (create-Safe S n _ p)) λ r _. with_file-Safe r

      pub open_state-Safe : Safe S n (open_state h) (Starts h)
      open_state-Safe = returning-Runs S (Starts h) open_loosely-Safe at
        where
          at :
              (w v : World) (r : Result ReceiveState InitError)
              → open_state h w ≡ (returned r, v)
              → Starts h r
          at w v (ok s) e = open_state-start h w s v e
          at w v (err x) e = tt
