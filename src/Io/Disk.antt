-- ===== src/Io/Disk.antt =====
-- Files as byte strings by path.
use udpcp.Base.{ℕ, List, Option, ◌≡◌, ◌≢◌, if◌then◌else◌, bytes_eq, bytes_eq_refl, bytes_eq-false}

-- A path is the bytes of its name.
abbrev pub FilePath : Type 0
FilePath = List ℕ

abbrev pub Files : Type 0
Files = FilePath → Option (List ℕ)

unfoldable pub put : FilePath → Option (List ℕ) → Files → Files
put p c files q = if bytes_eq p q then c else files q

pub put_self : (p : FilePath) (c : Option (List ℕ)) (files : Files) → put p c files p ≡ c
unfolding put
put_self p c files = rw (bytes_eq_refl p)

pub put_ne :
    (p q : FilePath) (c : Option (List ℕ)) (files : Files) → p ≢ q → put p c files q ≡ files q
unfolding put
put_ne p q c files h = rw (bytes_eq-false p q h)
