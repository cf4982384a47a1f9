-- ===== src/Protocol/Hashing/Laws.antt =====
-- Short reads do not matter: `file_hash` is the digest of the whole file, and `read_chunk` fills
-- its buffer unless the file ends.
use udpcp.Base.{
  ℕ, zero, suc, ◌+◌, ◌-◌, ◌≤◌, ◌<◌, ◌≡◌, ◌≢◌, refl, sym, ap, subst, ◌∙◌, ◌⊎◌, inl, inr, List, [],
  ◌∷◌, ◌++◌, append_assoc, append-nil, length, take, drop, length-take, length-drop, drop-drop,
  take_all, take-append-take, arith, Bool-cases, ◌==◌, ==_iff,
}
use udpcp.Error.{IoError}
use udpcp.Io.{World, Outcome, returned, raised}
use udpcp.Io.Disk.{FilePath}
use udpcp.Io.FileOps.{File, contents}
use udpcp.Io.Quiet.{Quiet, Quiet-refl, Quiet-trans}
use udpcp.Io.Reads.{read-cases, seek-cases}
use udpcp.Protocol.Hashing.{Sha256, hash_loop, file_hash, read_loop, read_chunk}

module _ (sha : Sha256) where
  open sha use {Hasher, new, update, finalize, digest, Fed, fed_new, fed_update, fed_finalize}

  -- A failure, or the digest of the content `c` of the file `path`, in a quiet world.
  abbrev pub HashCases : FilePath → World → List ℕ → Outcome (List ℕ × File) × World → Type 0
  HashCases path w c r =
      ((e : IoError) × (v : World) × (r ≡ (raised e, v)) × Quiet w v × (w.faults ≢ []))
      ⊎ ((f : File) × (v : World) × (r ≡ (returned (digest c, f), v)) × Quiet w v × (f.path ≡ path))

  HashCases-after :
      {path : FilePath} {w v : World} {c : List ℕ} {r : Outcome (List ℕ × File) × World}
      → Quiet w v
      → HashCases path v c r
      → HashCases path w c r
  HashCases-after q (inl (x, u, p, p', k)) = inl (x, u, p, Quiet-trans q p', λ z. k (q.faults z))
  HashCases-after q (inr (g, u, p, p', s)) = inr (g, u, p, Quiet-trans q p', s)

  hash_loop-cases :
      (fuel : ℕ) (f : File) (h : Hasher) (w : World) (c : List ℕ)
      → contents (w.files f.path) ≡ c
      → f.pos ≤ length c
      → length c < f.pos + fuel
      → Fed h (take f.pos c)
      → HashCases f.path w c (hash_loop sha fuel f h w)
  unfolding hash_loop
  hash_loop-cases zero f h w c e a b fed = absurd (omega arith)
  hash_loop-cases (suc fuel) f h w c e a b fed = elim (read-cases f 65536 w c e) [
    | inl (x, v, p, q, k) ↦ inl (x, v, rw p, q, k)
    | inr (n, v, p, q, n1, n2, n3) ↦
        let piece : List ℕ = take n (drop f.pos c) in
        let long : length piece ≡ n = omega (arith, length-take n (drop f.pos c)) in
        let left : length (drop f.pos c) ≡ length c - f.pos = length-drop f.pos c in
        elim (Bool-cases (length piece == 0)) [
          | inl t ↦
              let at_end : length c ≤ f.pos = omega (arith, (==_iff _ _).0 t) in
              inr (
                record f { pos = f.pos + n },
                v,
                rw (p, t, fed_finalize h (take f.pos c) fed, take_all f.pos c at_end),
                q,
                refl,
              )
          | inr t ↦
              let some_read : 0 < n = ground (arith, long) in
              rw (p, t)
                (HashCases-after q (
                  hash_loop-cases fuel (record f { pos = f.pos + n }) (update h piece) v c
                    (rw q.files e) (omega arith) (omega arith)
                    (subst (Fed (update h piece)) (take-append-take f.pos n c)
                      (fed_update h (take f.pos c) piece fed))))
        ]
  ]

  -- Hashing an open file fails, or gives the digest of its whole content, however short the reads;
  -- it always ends, and changes nothing outside.
  pub file_hash-cases :
      (f : File) (w : World) (c : List ℕ)
      → contents (w.files f.path) ≡ c
      → HashCases f.path w c (file_hash sha f w)
  unfolding file_hash
  file_hash-cases f w c e = elim (seek-cases f 0 w) [
    | inl (x, v, p, q, k) ↦ inl (x, v, rw p, q, k)
    | inr (v, p, q) ↦
        let fuel : ℕ = suc (length (contents (w.files f.path))) in
        rw p (
          HashCases-after q (
            hash_loop-cases fuel (record f { pos = 0 }) new v c (rw q.files e) (omega arith)
              (omega (arith, ap (length {A = ℕ}) e)) fed_new))
  ]

-- Reading fails, or the loop returns what it had with the next `room` bytes of the content behind.
abbrev pub ChunkCases :
    File → List ℕ → ℕ → World → List ℕ → Outcome (List ℕ × File) × World → Type 0
ChunkCases f got room w c r =
    ((e : IoError) × (v : World) × (r ≡ (raised e, v)) × Quiet w v × (w.faults ≢ []))
    ⊎ ((g : File) × (v : World) × (r ≡ (returned (got ++ take room (drop f.pos c), g), v))
        × Quiet w v
        × (g.path ≡ f.path))

-- The loop that has filled its buffer returns it.
read_loop_full :
    (fuel : ℕ) (f : File) (got : List ℕ) (room : ℕ) (w : World) (c : List ℕ)
    → room ≡ 0
    → ChunkCases f got room w c (read_loop fuel f got room w)
unfolding read_loop
read_loop_full zero f got room w c e = rw e (inr (f, w, rw (append-nil got), Quiet-refl w, refl))
read_loop_full (suc fuel) f got room w c e =
    rw e (inr (f, w, rw (append-nil got), Quiet-refl w, refl))

ChunkCases-after :
    (f g : File) (got more : List ℕ) (room less : ℕ) (c : List ℕ) {w v : World}
    {r : Outcome (List ℕ × File) × World}
    → Quiet w v
    → more ++ take less (drop g.pos c) ≡ got ++ take room (drop f.pos c)
    → g.path ≡ f.path
    → ChunkCases g more less v c r
    → ChunkCases f got room w c r
ChunkCases-after f g got more room less c q e s (inl (x, u, p, p', k)) =
    inl (x, u, p, Quiet-trans q p', λ z. k (q.faults z))
ChunkCases-after f g got more room less c q e s (inr (h, u, p, p', s')) =
    inr (h, u, rw e at p, Quiet-trans q p', s' ∙ s)

empty_of_length : (xs : List ℕ) → length xs ≡ 0 → xs ≡ []
empty_of_length [] h = refl
empty_of_length (x ∷ xs) h = absurd (omega arith)

-- What a piece leaves is read by the rest of the loop.
pieces_join :
    (got : List ℕ) (n pos room : ℕ) (c : List ℕ)
    → n ≤ room
    → (got ++ take n (drop pos c)) ++ take (room - n) (drop (pos + n) c)
      ≡ got ++ take room (drop pos c)
pieces_join got n pos room c h =
    append_assoc got _ _
    ∙ ap (◌++◌ got)
        (rw (sym (drop-drop pos n c)) (take-append-take n (room - n) (drop pos c) ∙ rw (sum)))
  where
    sum : n + (room - n) ≡ room
    sum = omega arith

read_loop-cases :
    (fuel : ℕ) (f : File) (got : List ℕ) (room : ℕ) (w : World) (c : List ℕ)
    → contents (w.files f.path) ≡ c
    → room ≤ fuel
    → ChunkCases f got room w c (read_loop fuel f got room w)
unfolding read_loop
read_loop-cases zero f got room w c e h = read_loop_full zero f got room w c (omega arith)
read_loop-cases (suc fuel) f got room w c e h = elim (Bool-cases (room == 0)) [
  | inl t ↦ read_loop_full (suc fuel) f got room w c ((==_iff _ _).0 t)
  | inr t ↦ elim (read-cases f room w c e) [
    | inl (x, v, p, q, k) ↦ inl (x, v, rw (t, p), q, k)
    | inr (n, v, p, q, n1, n2, n3) ↦
        let piece : List ℕ = take n (drop f.pos c) in
        let long : length piece ≡ n = omega (arith, length-take n (drop f.pos c)) in
        elim (Bool-cases (length piece == 0)) [
          | inl s ↦
              let at_end : drop f.pos c ≡ [] =
                empty_of_length (drop f.pos c)
                  (ground (arith, long, (==_iff (length piece) 0).0 s)) in
              inr (
                record f { pos = f.pos + n },
                v,
                rw (t, p, s, at_end, take_all {A = ℕ} room [] (omega arith), append-nil got),
                q,
                refl,
              )
          | inr s ↦
              let nonzero : 0 < n = ground (arith, long) in
              rw (t, p, s, long)
                (ChunkCases-after f (record f { pos = f.pos + n }) got (got ++ piece) room
                  (room - n) c q (pieces_join got n f.pos room c n1) refl
                  (read_loop-cases fuel (record f { pos = f.pos + n }) (got ++ piece) (room - n) v c
                    (rw q.files e) (omega arith)))
        ]
  ]
]

-- Reading a chunk fails, or returns the bytes at the cursor: as many as the buffer holds, fewer only
-- at the end of the file, however short the single reads.
pub read_chunk-cases :
    (f : File) (len : ℕ) (w : World) (c : List ℕ)
    → contents (w.files f.path) ≡ c
    → ChunkCases f [] len w c (read_chunk f len w)
unfolding read_chunk
read_chunk-cases f len w c e = read_loop-cases len f [] len w c e (omega arith)
