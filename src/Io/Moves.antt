-- ===== src/Io/Moves.antt =====
-- What opening, renaming and removing a file do on every outcome, for a file that is there.
use udpcp.Base.{ℕ, ◌≡◌, ◌≢◌, refl, ◌⊎◌, inl, inr, List, [], Option, none, some}
use udpcp.Error.{IoError}
use udpcp.Io.{World, Outcome, returned, raised}
use udpcp.Io.Disk.{FilePath, put}
use udpcp.Io.FileOps.{File, open_file, rename, remove_file, sync_all}
use udpcp.Io.Quiet.{Quiet, syscall-cases}

-- The call failed, or it returned with the files as given.
abbrev pub FilesCases :
    {A : Type 0} → A → (FilePath → Option (List ℕ)) → World → Outcome A × World → Type 0
FilesCases {A} a files w r =
    ((e : IoError) × (v : World) × (r ≡ (raised e, v)) × Quiet w v × (w.faults ≢ []))
    ⊎ ((v : World) × (r ≡ (returned a, v))
        × (v.files ≡ files)
        × (w.faults ≡ [] → v.faults ≡ [])
        × (v.sent ≡ w.sent))

pub sync_all-cases : (p : FilePath) (w : World) → FilesCases tt w.files w (sync_all p w)
unfolding sync_all
sync_all-cases p w = elim (syscall-cases {A = Unit {0}} (λ w. (tt, w)) w) [
  | inl failed ↦ inl failed
  | inr (v, p, q, _) ↦ inr (v, p, q.files, q.faults, q.sent)
]

abbrev pub at_start : FilePath → File
at_start p = record { path = p; pos = 0 }

pub open_file-cases :
    (p : FilePath) (c : List ℕ) (w : World)
    → w.files p ≡ some c
    → FilesCases (at_start p) w.files w (open_file p w)
unfolding open_file
open_file-cases p c w h = rw h (elim (syscall-cases (λ w. (at_start p, w)) w) [
  | inl failed ↦ inl failed
  | inr (v, p, q, _) ↦ inr (v, p, q.files, q.faults, q.sent)
])

pub rename-cases :
    (from to : FilePath) (c : List ℕ) (w : World)
    → w.files from ≡ some c
    → FilesCases tt (put to (some c) (put from none w.files)) w (rename from to w)
unfolding rename
rename-cases from to c w h =
    rw h
      (elim (syscall-cases {A = Unit {0}}
        (λ w. (tt, record w { files = put to (some c) (put from none w.files) })) w) [
          | inl failed ↦ inl failed
          | inr (v, p, q, _) ↦ inr (_, p, rw q.files refl, q.faults, q.sent)
        ])

pub remove_file-cases :
    (path : FilePath) (c : List ℕ) (w : World)
    → w.files path ≡ some c
    → FilesCases tt (put path none w.files) w (remove_file path w)
unfolding remove_file
remove_file-cases path c w h =
    rw h
      (elim (syscall-cases {A = Unit {0}} (λ w. (tt, record w { files = put path none w.files }))
        w) [
          | inl failed ↦ inl failed
          | inr (v, p, q, _) ↦ inr (_, p, rw q.files refl, q.faults, q.sent)
        ])
