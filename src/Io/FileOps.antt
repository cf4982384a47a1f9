-- ===== src/Io/FileOps.antt =====
-- Calls on files. An open file is named by its path: the program never removes or replaces a file
-- whose handle it goes on using.
use udpcp.Base.{
  ℕ, suc, ◌+◌, ◌-◌, List, [], ◌∷◌, ◌++◌, Option, none, some, min, length, take, drop, replicate,
  write_at,
}
use udpcp.Error.{IoError, other, os}
use udpcp.Io.{World, returned, raised, Io, raise, syscall}
use udpcp.Io.Disk.{FilePath, put}

not_found : IoError
not_found = record { kind = other; reason = os 2 }

-- `File::create`: the file is there and empty.
unfoldable pub create : FilePath → Io (Unit {0})
unfolding syscall
create p = syscall (λ w. (tt, record w { files = put p (some []) w.files }))

abbrev pub resized : ℕ → List ℕ → List ℕ
resized n c = take n c ++ replicate (n - length c) 0

-- `set_len`: cut or filled up with zeros.
unfoldable pub set_len : FilePath → ℕ → Io (Unit {0})
unfolding syscall
set_len p n = syscall (λ w. (tt, record w { files = put p (changed (w.files p)) w.files }))
  where
    changed : Option (List ℕ) → Option (List ℕ)
    changed none = none
    changed (some c) = some (resized n c)

abbrev pub overwritten : Option (List ℕ) → ℕ → List ℕ → Option (List ℕ)
overwritten none offset d = none
overwritten (some c) offset d = some (write_at c offset d)

-- A write that fails may have written some of its bytes.
abbrev pub torn : List ℕ → List ℕ → List ℕ
torn [] d = []
torn (k ∷ r) d = take k d

abbrev pub write_effect : FilePath → List ℕ → ℕ → World → World
write_effect p d offset w = record w { files = put p (overwritten (w.files p) offset d) w.files }

abbrev write_all_at_at : List (Option IoError) → FilePath → List ℕ → ℕ → Io (Unit {0})
write_all_at_at [] p d offset w = (returned tt, write_effect p d offset w)
write_all_at_at (none ∷ r) p d offset w =
    (returned tt, write_effect p d offset (record w { faults = r }))
write_all_at_at (some e ∷ r) p d offset w =
    (raised e, write_effect p (torn w.reads d) offset (record w { faults = r }))

unfoldable pub write_all_at : FilePath → List ℕ → ℕ → Io (Unit {0})
write_all_at p d offset w = write_all_at_at w.faults p d offset w

unfoldable pub sync_all : FilePath → Io (Unit {0})
unfolding syscall
sync_all p = syscall (λ w. (tt, w))

abbrev rename_at : Option (List ℕ) → FilePath → FilePath → Io (Unit {0})
rename_at none from to = raise not_found
rename_at (some c) from to =
    syscall (λ w. (tt, record w { files = put to (some c) (put from none w.files) }))

-- `fs::rename` replaces its target in one step.
unfoldable pub rename : FilePath → FilePath → Io (Unit {0})
unfolding syscall not_found
rename from to w = rename_at (w.files from) from to w

abbrev remove_at : Option (List ℕ) → FilePath → Io (Unit {0})
remove_at none p = raise not_found
remove_at (some c) p = syscall (λ w. (tt, record w { files = put p none w.files }))

unfoldable pub remove_file : FilePath → Io (Unit {0})
unfolding syscall not_found
remove_file p w = remove_at (w.files p) p w

-- An open file with its cursor.
pub record File : Type 0 where
  pub path : FilePath
  pub pos : ℕ

abbrev open_at : Option (List ℕ) → FilePath → Io File
open_at none p = raise not_found
open_at (some c) p = syscall (λ w. (record { path = p; pos = 0 }, w))

-- `File::open`
unfoldable pub open_file : FilePath → Io File
unfolding syscall not_found
open_file p w = open_at (w.files p) p w

unfoldable pub seek : File → ℕ → Io File
unfolding syscall
seek f pos = syscall (λ w. (record f { pos = pos }, w))

unfoldable pub contents : Option (List ℕ) → List ℕ
contents none = []
contents (some c) = c

-- How much of `len` bytes a read returns: at least one if there is one.
abbrev pub read_size : List ℕ → ℕ → ℕ → ℕ
read_size [] len left = min len left
read_size (k ∷ r) len left = min (min len left) (suc k)

abbrev pub rest_reads : List ℕ → List ℕ
rest_reads [] = []
rest_reads (k ∷ r) = r

abbrev pub read_effect : File → ℕ → World → (List ℕ × File) × World
read_effect f len w =
    let left = drop f.pos (contents (w.files f.path)) in
    let n = read_size w.reads len (length left) in
    ((take n left, record f { pos = f.pos + n }), record w { reads = rest_reads w.reads })

-- `f.read(buf)` for a buffer of `len` bytes: the bytes read, none only at the end of the file.
unfoldable pub read : File → ℕ → Io (List ℕ × File)
unfolding syscall contents
read f len = syscall (read_effect f len)

-- `f.metadata()?.len()`
unfoldable pub file_len : FilePath → Io ℕ
unfolding syscall contents
file_len p = syscall (λ w. (length (contents (w.files p)), w))
