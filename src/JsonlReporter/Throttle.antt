-- ===== src/JsonlReporter/Throttle.antt =====
-- The progress lines of one transfer.
use udpcp.Base.{
  ℕ, ◌+◌, ◌*◌, ◌/◌, ◌≤◌, ◌<◌, ◌≡◌, refl, ap, subst, ◌∙◌, ◌%◌, u32_mod, u64_mod, Option, none, some,
  List, [], ◌∷◌, Bool, true, false, ◌==◌, inl, inr, length, Bool-cases, if◌then◌else◌, arith,
}
use udpcp.Report.{TransferEvent}
use udpcp.Report.Texts.{Texts}
use udpcp.JsonlReporter.{
  report_all, Json, no_pct, new, percent, millis, progress_value, event_value,
}
use udpcp.Protocol.{one_milli}
use udpcp.Base.Text.{bytes}
use udpcp.JsonlReporter.Lines.{values, print_lines, report_all-print_lines}
use native.Mathlib.Nat.{le-div_iff_mul-le, div-lt_iff_lt-mul}

-- The percentage rises with `done` and ends at 100.
percent_bounds :
    (a d total : ℕ)
    → 0 < total
    → a ≤ d
    → d ≤ total
    → (percent a total ≤ percent d total) × (percent d total ≤ 100)
unfolding percent
percent_bounds a d total t h k =
    let (up, down) = le-div_iff_mul-le {x = a * 100 / total} {y = d * 100} t in
    let (up', down') = le-div_iff_mul-le {x = a * 100 / total} {y = a * 100} t in
    let (under, over) = div-lt_iff_lt-mul {x = d * 100} {y = 101} t in
    let low : a * 100 / total ≤ d * 100 / total = down (omega (arith, up' (omega arith))) in
    let high : d * 100 / total < 101 = over (omega arith) in
    (omega (arith, low, high), omega (arith, high))

-- The numbers of stored or sent chunks do not fall, and stay within the total.
abbrev pub IsRising : ℕ → ℕ → List (ℕ × ℕ) → Type 0
IsRising floor total [] = Unit
IsRising floor total ((done, elapsed) ∷ ds) =
    (floor ≤ done) × (done ≤ total) × IsRising done total ds

abbrev pub progress_events : ℕ → ℕ → List (ℕ × ℕ) → List TransferEvent
progress_events total chunk_size [] = []
progress_events total chunk_size ((done, elapsed) ∷ ds) =
    TransferEvent.progress done total chunk_size elapsed ∷ progress_events total chunk_size ds

-- The percentage was that of the count before.
is_shown : Option ℕ → ℕ → Bool
is_shown none pct = false
is_shown (some last) pct = last == pct

module _ {ℓ} {Value : Type ℓ} (json : Json Value) (texts : Texts) where
  -- Without `--progress` there is no line.
  no_values :
      (last total chunk_size : ℕ) (ds : List (ℕ × ℕ))
      → values json texts
          (record { progress = false; last_pct = last })
          (progress_events total chunk_size ds)
        ≡ []
  unfolding values event_value progress_value
  no_values last total chunk_size [] = refl
  no_values last total chunk_size ((done, elapsed) ∷ ds) = no_values last total chunk_size ds

  -- From a reporter that showed the percentage of `floor`, the rest takes the lines up to 100.
  few :
      (floor total chunk_size : ℕ) (ds : List (ℕ × ℕ))
      → 0 < total
      → floor ≤ total
      → IsRising floor total ds
      → length (
            values json texts
              (record { progress = true; last_pct = percent floor total })
              (progress_events total chunk_size ds))
          + percent floor total
        ≤ 100
  unfolding values event_value progress_value
  few floor total chunk_size [] t f r =
      let (_, high) = percent_bounds floor floor total t (omega arith) f in omega arith
  few floor total chunk_size ((done, elapsed) ∷ ds) t f (a, b, r) =
      let rest = few done total chunk_size ds t b r in
      let (low, high) = percent_bounds floor done total t a b in
      let some_total : (total == 0) ≡ false = ground arith in
      elim (Bool-cases (percent floor total == percent done total)) [
        | inl same ↦ rw (some_total, same) (omega (arith, rest, low))
        | inr new_pct ↦
            let differ : percent floor total < percent done total = ground arith in
            rw (some_total, new_pct) (omega (arith, rest, differ))
      ]

  lines_bound :
      (total chunk_size : ℕ) (ds : List (ℕ × ℕ))
      → 0 < total
      → IsRising 0 total ds
      → length (values json texts (new true) (progress_events total chunk_size ds)) ≤ 101
  unfolding new values event_value progress_value
  lines_bound total chunk_size [] t r = omega arith
  lines_bound total chunk_size ((done, elapsed) ∷ ds) t (a, b, r) =
      let rest = few done total chunk_size ds t b r in
      let (low, high) = percent_bounds done done total t (omega arith) b in
      let some_total : (total == 0) ≡ false = ground arith in
      let first : (no_pct == percent done total) ≡ false = ground arith in
      rw (some_total, first) (omega (arith, rest))

  -- The object of a progress line.
  abbrev pub line : ℕ → ℕ → ℕ → ℕ → Value
  line done total pct elapsed = json.object (
      (bytes "event", json.text (bytes "progress"))
      ∷ (bytes "done", json.unsigned done)
      ∷ (bytes "total", json.unsigned total)
      ∷ (bytes "pct", json.signed pct)
      ∷ (bytes "elapsed_ms", json.unsigned ((elapsed / one_milli) % u64_mod))
      ∷ [])

  -- A line for each count whose whole percentage is not that of the count before, and for the first.
  pub changes : ℕ → Option ℕ → List (ℕ × ℕ) → List Value
  unfolding is_shown
  changes total last [] = []
  changes total last ((done, elapsed) ∷ ds) =
      let pct = done * 100 / total in
      let rest = changes total (some pct) ds in
      if is_shown last pct then rest else line done total pct elapsed ∷ rest

  -- The word that the reporter keeps of the percentage shown last.
  abbrev word : Option ℕ → ℕ
  word none = no_pct
  word (some q) = q

  same_shown : (last : Option ℕ) (p : ℕ) → p ≤ 100 → (word last == p) ≡ is_shown last p
  unfolding is_shown
  same_shown none p h = ground arith
  same_shown (some q) p h = refl

  values-changes :
      (last : Option ℕ) (total chunk_size floor : ℕ) (ds : List (ℕ × ℕ))
      → 0 < total
      → IsRising floor total ds
      → values json texts
          (record { progress = true; last_pct = word last })
          (progress_events total chunk_size ds)
        ≡ changes total last ds
  unfolding values event_value progress_value changes percent millis
  values-changes last total chunk_size floor [] t r = refl
  values-changes last total chunk_size floor ((done, elapsed) ∷ ds) t (a, b, r) =
      let (_, over) = div-lt_iff_lt-mul {x = done * 100} {y = 101} t in
      let high : done * 100 / total < 101 = over (omega arith) in
      let no_wrap : done * 100 / total % u32_mod ≡ done * 100 / total = omega (arith, high) in
      let some_total : (total == 0) ≡ false = ground arith in
      let rest = values-changes (some (done * 100 / total)) total chunk_size done ds t r in
      let shown = same_shown last (done * 100 / total) (omega (arith, high)) in
      elim (Bool-cases (is_shown last (done * 100 / total))) [
        | inl same ↦ rw (some_total, no_wrap, shown, same) rest
        | inr new_pct ↦
            rw (some_total, no_wrap, shown, new_pct)
              (ap (◌∷◌ (line done total (done * 100 / total) elapsed)) rest)
      ]

  -- For the progress of a transfer whose count of chunks does not fall and stays within a positive
  -- total: without `--progress` a new reporter writes nothing. With it, it writes a line for the
  -- first count and for each whose whole percentage of the total, rounded down, is not that of the
  -- count before; the line is the JSON object of the count, the total, that percentage and the
  -- milliseconds elapsed; and there are at most 101 lines.
  pub progress_lines_bound :
      (show_progress : Bool) (total chunk_size : ℕ) (ds : List (ℕ × ℕ))
      → 0 < total
      → IsRising 0 total ds
      → ((report_all json texts (new show_progress) (progress_events total chunk_size ds)).0
          ≡ print_lines json texts (if show_progress then changes total none ds else []))
        × (length (changes total none ds) ≤ 101)
  unfolding new
  progress_lines_bound show_progress total chunk_size ds t r = (
    report_all-print_lines json texts (new show_progress) (progress_events total chunk_size ds)
        ∙ ap (print_lines json texts) (at show_progress),
    subst (λ (vs : List Value). length vs ≤ 101) (at true) (lines_bound total chunk_size ds t r),
  )
    where
      at :
          (b : Bool)
          → values json texts (new b) (progress_events total chunk_size ds)
            ≡ (if b then changes total none ds else [])
      at false = no_values no_pct total chunk_size ds
      at true = values-changes none total chunk_size 0 ds t r
