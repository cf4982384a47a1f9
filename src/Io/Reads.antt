-- ===== src/Io/Reads.antt =====
-- What one `read` returns: a piece at the cursor, empty only at the end of the file.
use udpcp.Base.{
  ℕ, ◌+◌, ◌≤◌, ◌<◌, ◌≡◌, ◌≢◌, refl, ◌⊎◌, inl, inr, List, [], ◌∷◌, length, take, drop, arith,
}
use udpcp.Error.{IoError}
use udpcp.Io.{World, Outcome, returned, raised}
use udpcp.Io.FileOps.{File, read, seek, contents, read_effect, read_size}
use udpcp.Io.Quiet.{Quiet, Quiet-trans, syscall-cases}

read_size_bounds :
    (rs : List ℕ) (len left : ℕ)
    → (read_size rs len left ≤ len)
      × (read_size rs len left ≤ left)
      × ((len ≡ 0) ⊎ (left ≡ 0) ⊎ (0 < read_size rs len left))
read_size_bounds [] len left = ground arith
read_size_bounds (k ∷ r) len left = ground arith

-- A failed read, or a piece of `n` bytes of the content `c`.
abbrev pub ReadCases : File → ℕ → World → List ℕ → Outcome (List ℕ × File) × World → Type 0
ReadCases f len w c r =
    ((e : IoError) × (v : World) × (r ≡ (raised e, v)) × Quiet w v × (w.faults ≢ []))
    ⊎ ((n : ℕ) × (v : World) × (r
          ≡ (returned (take n (drop f.pos c), record f { pos = f.pos + n }), v))
        × Quiet w v
        × (n ≤ len)
        × (n ≤ length (drop f.pos c))
        × ((len ≡ 0) ⊎ (length (drop f.pos c) ≡ 0) ⊎ (0 < n)))

read_effect-Quiet : (f : File) (len : ℕ) (w : World) → Quiet w (read_effect f len w).1
read_effect-Quiet f len w = record {
  files = refl;
  sent = refl;
  events = refl;
  inbox = refl;
  clock = refl;
  nonblocking = refl;
  faults = λ h. h;
}

pub read-cases :
    (f : File) (len : ℕ) (w : World) (c : List ℕ)
    → contents (w.files f.path) ≡ c
    → ReadCases f len w c (read f len w)
unfolding read
read-cases f len w c e = elim (syscall-cases (read_effect f len) w) [
  | inl (x, v, p, q, h) ↦ inl (x, v, p, q, h)
  | inr (v, p, q, h) ↦
      let here : contents (v.files f.path) ≡ c = rw q.files e in
      let (a, b, d) = read_size_bounds v.reads len (length (drop f.pos c)) in
      inr (
        read_size v.reads len (length (drop f.pos c)),
        (read_effect f len v).1,
        rw here at p,
        Quiet-trans q (read_effect-Quiet f len v),
        a,
        b,
        d,
      )
]

-- `seek` fails, or moves the cursor.
abbrev pub SeekCases : File → ℕ → World → Outcome File × World → Type 0
SeekCases f pos w r =
    ((e : IoError) × (v : World) × (r ≡ (raised e, v)) × Quiet w v × (w.faults ≢ []))
    ⊎ ((v : World) × (r ≡ (returned (record f { pos = pos }), v)) × Quiet w v)

pub seek-cases : (f : File) (pos : ℕ) (w : World) → SeekCases f pos w (seek f pos w)
unfolding seek
seek-cases f pos w = elim (syscall-cases (λ w. (record f { pos = pos }, w)) w) [
  | inl (x, v, p, q, h) ↦ inl (x, v, p, q, h)
  | inr (v, p, q, _) ↦ inr (v, p, q)
]
