-- ===== src/Recv/Paths/Pushed.antt =====
-- The name of a path to which a plain component was pushed.
use mathlib.Core.List.{reverse, reverse_aux, reverse-append, reverse-reverse}
use udpcp.Base.{
  ℕ, ◌+◌, ◌≡◌, refl, ◌∙◌, ap, ◌⊎◌, inl, inr, List, [], ◌∷◌, ◌++◌, append_assoc, none, some, Option,
  true, ◌==◌, All, All-append, arith, bytes_eq-false, Bool-cases, length, length-append,
}
use udpcp.Io.Disk.{FilePath}
use udpcp.Recv.Paths.{
  file_name, with_file_name, push, parent, last_segment, as_name, trim_end, starts_slash, slash,
  dot,
}
use udpcp.Recv.Paths.Plain.{IsNoSlash}

abbrev pub suffix : List ℕ
suffix = b'.' ∷ b't' ∷ b'm' ∷ b'p' ∷ []

All-reverse_aux :
    (P : ℕ → Type 0) (xs got : List ℕ) → All P xs → All P got → All P (reverse_aux xs got)
All-reverse_aux P [] got h g = g
All-reverse_aux P (x ∷ xs) got h g = All-reverse_aux P xs (x ∷ got) h.1 (h.0, g)

last_segment_run :
    (got r base : List ℕ)
    → All IsNoSlash r
    → last_segment got (r ++ base) ≡ last_segment (reverse_aux r got) base
unfolding last_segment
last_segment_run got [] base h = refl
last_segment_run got (c ∷ r) base h = elim (Bool-cases (c == slash)) [
  | inl e ↦ absurd (h.0 (ground arith))
  | inr e ↦ rw e (last_segment_run (c ∷ got) r base h.1)
]

-- Where a segment starts.
Starts : List ℕ → Type 0
Starts base = (base ≡ []) ⊎ (starts_slash base ≡ true)

last_segment-Starts : (got base : List ℕ) → Starts base → (last_segment got base).0 ≡ got
unfolding last_segment Starts starts_slash
last_segment-Starts got [] h = refl
last_segment-Starts got (c ∷ r) (inl e) = cc
last_segment-Starts got (c ∷ r) (inr e) = rw e refl

as_name-suffix : (x : List ℕ) → as_name (x ++ suffix) ≡ some (x ++ suffix)
unfolding as_name
as_name-suffix x =
    let long : length (x ++ suffix) ≡ length x + 4 = length-append x suffix in
    rw
      (
        bytes_eq-false (x ++ suffix) [] λ e. omega (arith, long, ap length e),
        bytes_eq-false (x ++ suffix) (dot ∷ []) λ e. omega (arith, long, ap length e),
        bytes_eq-false (x ++ suffix) (dot ∷ dot ∷ []) λ e. omega (arith, long, ap length e),
      )
      refl

module _ (x : List ℕ) (plain : All IsNoSlash x) where
  reversed_name :
      (base : List ℕ)
      → Starts base
      → (last_segment [] (trim_end (reverse (x ++ suffix) ++ base))).0 ≡ x ++ suffix
  unfolding trim_end
  reversed_name base h =
      let no_slash : All IsNoSlash (x ++ suffix) = All-append IsNoSlash x suffix plain (
        λ e. omega (arith, e),
        (λ e. omega (arith, e), (λ e. omega (arith, e), (λ e. omega (arith, e), tt))),
      ) in
      let trimmed : trim_end (reverse (x ++ suffix) ++ base) ≡ reverse (x ++ suffix) ++ base =
        rw (reverse-append x suffix) refl in
      rw trimmed (
        ap (λ (r : List ℕ × List ℕ). r.0)
          (last_segment_run [] (reverse (x ++ suffix)) base
            (All-reverse_aux IsNoSlash (x ++ suffix) [] no_slash tt))
        ∙ last_segment-Starts _ base h
        ∙ reverse-reverse (x ++ suffix))

  file_name_joined :
      (base : FilePath)
      → Starts (reverse base)
      → file_name (base ++ (x ++ suffix)) ≡ some (x ++ suffix)
  unfolding file_name
  file_name_joined base h =
      rw (reverse-append base (x ++ suffix), reversed_name (reverse base) h) (as_name-suffix x)

  file_name-push : (p : FilePath) → file_name (push p (x ++ suffix)) ≡ some (x ++ suffix)
  unfolding push
  file_name-push [] = file_name_joined [] (unfold Starts in inl refl)
  file_name-push (c ∷ r) = elim (Bool-cases (starts_slash (reverse (c ∷ r)))) [
    | inl e ↦ rw e (file_name_joined (c ∷ r) (unfold Starts in inr e))
    | inr e ↦
        let joined =
          file_name_joined ((c ∷ r) ++ slash ∷ [])
            (unfold Starts in inr (rw (reverse-append (c ∷ r) (slash ∷ [])) refl)) in
        rw (e, ← append_assoc (c ∷ r) (slash ∷ []) (x ++ suffix)) joined
  ]

  -- The name that was pushed.
  pub file_name-with_file_name :
      (p : FilePath) → file_name (with_file_name p (x ++ suffix)) ≡ some (x ++ suffix)
  unfolding with_file_name
  file_name-with_file_name p = at (file_name p) refl
    where
      at :
          (o : Option (List ℕ))
          → file_name p ≡ o
          → file_name (with_file_name p (x ++ suffix)) ≡ some (x ++ suffix)
      at none e = rw (e, with_file_name) (file_name-push p)
      at (some n) e = rw (e, with_file_name) (file_name-push (parent p))
