-- ===== src/Recv/Paths/Plain.antt =====
-- What `file_name` returns is one plain component.
use udpcp.Base.{
  ℕ, ◌≡◌, ◌≢◌, inl, inr, List, [], ◌∷◌, some, false, ◌==◌, All, arith, bytes_eq, bytes_eq_refl,
  Bool-cases,
}
use mathlib.Core.List.{reverse}
use udpcp.Io.Disk.{FilePath}
use udpcp.Recv.Paths.{file_name, last_segment, as_name, trim_end, slash, dot}

abbrev pub IsNoSlash : ℕ → Type 0
IsNoSlash c = c ≢ slash

-- No separator, and neither nothing, `.` nor `..`.
pub record IsPlain (n : FilePath) : Type 0 where
  pub no_slash : All IsNoSlash n
  pub not_empty : n ≢ []
  pub not_dot : n ≢ dot ∷ []
  pub not_dots : n ≢ dot ∷ dot ∷ []

last_segment-IsNoSlash : (got r : List ℕ) → All IsNoSlash got → All IsNoSlash (last_segment got r).0
unfolding last_segment
last_segment-IsNoSlash got [] h = h
last_segment-IsNoSlash got (c ∷ r) h = elim (Bool-cases (c == slash)) [
  | inl e ↦ rw e h
  | inr e ↦ rw e (last_segment-IsNoSlash (c ∷ got) r ((λ k. ground arith), h))
]

as_name-inv :
    (s n : List ℕ)
    → as_name s ≡ some n
    → (s ≡ n)
      × (bytes_eq s [] ≡ false)
      × (bytes_eq s (dot ∷ []) ≡ false)
      × (bytes_eq s (dot ∷ dot ∷ []) ≡ false)
unfolding as_name
as_name-inv s n e = ground arith

as_name-IsPlain : (s n : List ℕ) → All IsNoSlash s → as_name s ≡ some n → IsPlain n
as_name-IsPlain s n h e =
    let (same, a, b, c) = as_name-inv s n e in
    record {
      no_slash = rw (← same) h;
      not_empty = λ p. cc (same, a, p, bytes_eq_refl []);
      not_dot = λ p. cc (same, b, p, bytes_eq_refl (dot ∷ []));
      not_dots = λ p. cc (same, c, p, bytes_eq_refl (dot ∷ dot ∷ []));
    }

-- A path's file name has no separator, and is neither empty nor `.` nor `..`.
pub file_name-IsPlain : (p n : FilePath) → file_name p ≡ some n → IsPlain n
unfolding file_name
file_name-IsPlain p n e =
    as_name-IsPlain (last_segment [] (trim_end (reverse p))).0 n
      (last_segment-IsNoSlash [] (trim_end (reverse p)) tt) e
