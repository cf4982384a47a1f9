-- ===== src/Recv/Paths.antt =====
-- `Path::file_name` and `Path::with_file_name` of the standard library, on Unix paths.
pub mod Plain
pub mod Pushed
use udpcp.Base.{
  ℕ, List, [], ◌∷◌, ◌++◌, Option, none, some, Bool, true, false, ◌&&◌, ◌||◌, ◌==◌, if◌then◌else◌,
  bytes_eq,
}
use udpcp.Io.Disk.{FilePath}
use mathlib.Core.List.{reverse}

abbrev pub slash : ℕ
slash = b'/'

abbrev pub dot : ℕ
dot = b'.'

starts_slash : List ℕ → Bool
starts_slash [] = false
starts_slash (c ∷ r) = c == slash

-- A reversed path without its trailing `/` and `/.`.
trim_end : List ℕ → List ℕ
unfolding starts_slash
trim_end [] = []
trim_end (c ∷ r) =
    let rest = trim_end r in if c == slash || (c == dot && starts_slash r) then rest else c ∷ r

-- The last segment of a reversed path, in order, and what stands in front of it.
last_segment : List ℕ → List ℕ → List ℕ × List ℕ
last_segment got [] = (got, [])
last_segment got (c ∷ r) =
    let more = last_segment (c ∷ got) r in if c == slash then (got, c ∷ r) else more

-- A name, unless it is nothing, `.` or `..`.
as_name : List ℕ → Option (List ℕ)
as_name s =
    if bytes_eq s [] || (bytes_eq s (dot ∷ []) || bytes_eq s (dot ∷ dot ∷ [])) then none else some s

unfoldable pub file_name : FilePath → Option (List ℕ)
unfolding trim_end last_segment as_name bytes_eq
file_name p = as_name (last_segment [] (trim_end (reverse p))).0

-- `PathBuf::push` of a relative name.
push : FilePath → List ℕ → FilePath
unfolding starts_slash
push [] name = name
push (c ∷ r) name =
    if starts_slash (reverse (c ∷ r)) then (c ∷ r) ++ name else (c ∷ r) ++ (slash ∷ name)

or_root : Bool → List ℕ → FilePath
or_root absolute [] = if absolute then slash ∷ [] else []
or_root absolute (c ∷ r) = c ∷ r

-- What is left of a path without its last name.
parent : FilePath → FilePath
unfolding trim_end last_segment starts_slash or_root
parent p = or_root (starts_slash p) (reverse (trim_end (last_segment [] (trim_end (reverse p))).1))

unfoldable pub with_file_name : FilePath → List ℕ → FilePath
unfolding file_name parent push
with_file_name p name = elim (file_name p) [ none ↦ push p name | some n ↦ push (parent p) name ]
