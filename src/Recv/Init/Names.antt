-- ===== src/Recv/Init/Names.antt =====
-- File names that an INIT may choose: never outside the receiver's directory.
use udpcp.Base.{
  ℕ, ◌≤◌, ◌<◌, ◌≡◌, refl, ◌⊎◌, inl, inr, List, [], ◌∷◌, Option, none, some, false, All, arith,
  Bool-cases, Option-cases,
}
use udpcp.Error.{ok}
use udpcp.Io.Disk.{FilePath}
use udpcp.Recv.Utf8.{from_utf8, any_control}
use udpcp.Recv.Paths.{file_name}
use udpcp.Recv.Paths.Plain.{IsPlain, file_name-IsPlain}
use udpcp.Recv.Init.{choose_path, checked_name, until_nul}

-- A code point that a terminal shows as itself.
abbrev pub IsPrintable : ℕ → Type 0
IsPrintable c = (0x20 ≤ c) × ((c < 0x7f) ⊎ (0xa0 ≤ c))

any_control→All : (cs : List ℕ) → any_control cs ≡ false → All IsPrintable cs
unfolding any_control
any_control→All [] h = tt
any_control→All (c ∷ cs) h = ground (arith, any_control→All cs)

-- A plain component whose code points are printable.
pub record IsSafeName (path : FilePath) : Type 0 where
  pub plain : IsPlain path
  pub chars : List ℕ
  pub decodes : from_utf8 path ≡ some chars
  pub printable : All IsPrintable chars

checked_name-safe :
    (o : Option (List ℕ)) (path : FilePath)
    → ((n : FilePath) → o ≡ some n → IsPlain n)
    → checked_name o ≡ ok path
    → IsSafeName path
unfolding checked_name
checked_name-safe none path h e = cc
checked_name-safe (some n) path h e = elim (Option-cases (from_utf8 n)) [
  | inl bad ↦ cc (rw (bad, checked_name) at e)
  | inr (chars, p) ↦ elim (Bool-cases (any_control chars)) [
    | inl t ↦ cc (rw (p, t, checked_name) at e)
    | inr f ↦
        let same : n ≡ path = cc (rw (p, f, checked_name) at e) in
        rw (← same) (record {
          plain = h n refl;
          chars = chars;
          decodes = p;
          printable = any_control→All chars f;
        })
  ]
]

-- Without an output override the path that an INIT chooses is one plain component of printable
-- characters: no separator, not `.` or `..`, no control characters.
pub choose_path-IsSafeName :
    (names : List ℕ) (path : FilePath) → choose_path names none ≡ ok path → IsSafeName path
unfolding choose_path
choose_path-IsSafeName names path e = elim (Option-cases (from_utf8 (until_nul names))) [
  | inl bad ↦ cc (rw (bad, choose_path) at e)
  | inr (raw, p) ↦
      checked_name-safe (file_name (until_nul names)) path
        (λ n. file_name-IsPlain (until_nul names) n) (rw (p, choose_path) at e)
]
