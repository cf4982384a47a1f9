-- ===== src/Io/Clock.antt =====
-- What `now` and `write_all_at` do on every outcome.
use udpcp.Base.{
  ℕ, ◌+◌, ◌≤◌, ◌≡◌, ◌≢◌, refl, ◌⊎◌, inl, inr, List, [], ◌∷◌, Option, none, some, arith,
}
use udpcp.Error.{IoError}
use udpcp.Io.{World, Outcome, returned, raised, now}
use udpcp.Io.Disk.{FilePath, put}
use udpcp.Io.FileOps.{write_all_at, overwritten, torn}

-- The clock is read, and may have moved on.
pub now-cases :
    (w : World)
    → (t : ℕ) × (r : List ℕ) × (now w ≡ (returned t, record w { clock = t; ticks = r }))
      × (w.clock ≤ t)
unfolding now
now-cases w = at w.ticks refl
  where
    at :
        (ts : List ℕ)
        → w.ticks ≡ ts
        → (t : ℕ) × (r : List ℕ) × (now w ≡ (returned t, record w { clock = t; ticks = r }))
          × (w.clock ≤ t)
    at [] e = (w.clock, w.ticks, rw (e, now), omega arith)
    at (t ∷ r) e = (w.clock + t, r, rw (e, now), omega arith)

-- A failed write may have written a part of its data.
abbrev pub WriteCases : FilePath → List ℕ → ℕ → World → Outcome (Unit {0}) × World → Type 0
WriteCases p d offset w r =
    ((e : IoError) × (fs : List (Option IoError)) × (r ≡ (
      raised e,
      record w {
        faults = fs;
        files = put p (overwritten (w.files p) offset (torn w.reads d)) w.files;
      },
    ))
      × (w.faults ≢ []))
    ⊎ ((fs : List (Option IoError)) × (r ≡ (
      returned tt,
      record w { faults = fs; files = put p (overwritten (w.files p) offset d) w.files },
    ))
        × (w.faults ≡ [] → fs ≡ []))

pub write_all_at-cases :
    (p : FilePath) (d : List ℕ) (offset : ℕ) (w : World)
    → WriteCases p d offset w (write_all_at p d offset w)
unfolding write_all_at
write_all_at-cases p d offset w = at w.faults refl
  where
    at :
        (fs : List (Option IoError))
        → w.faults ≡ fs
        → WriteCases p d offset w (write_all_at p d offset w)
    at [] e = inr ([], rw e, λ h. refl)
    at (none ∷ r) e = inr (r, rw e, λ h. cc)
    at (some x ∷ r) e = inl (x, r, rw e, λ h. cc)
