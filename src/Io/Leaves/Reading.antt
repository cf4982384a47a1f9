-- ===== src/Io/Leaves/Reading.antt =====
-- What the calls on the sender's file return, in the triples.
use udpcp.Base.{
  ℕ, ◌≡◌, refl, sym, ap, ◌∙◌, inl, inr, List, [], ◌++◌, Option, none, some, length, take, drop,
}
use udpcp.Io.{World, returned}
use udpcp.Io.Disk.{FilePath}
use udpcp.Io.FileOps.{File, open_file, seek, file_len, contents}
use udpcp.Io.Moves.{open_file-cases}
use udpcp.Io.Reads.{seek-cases}
use udpcp.Io.Quiet.{syscall-cases}
use udpcp.Io.Leaves.{Frame, Inbox, Leaves, told-Leaves}
use udpcp.Io.Leaves.Calls.{
  open_file-Stays, seek-Stays, file_len-Stays, file_hash-Stays, read_chunk-Stays,
}
use udpcp.Protocol.Hashing.{Sha256, file_hash, read_chunk}
use udpcp.Protocol.Hashing.Laws.{file_hash-cases, read_chunk-cases}

module _ (F : Frame) where
  -- The content that a file keeps.
  abbrev pub content : FilePath → List ℕ
  content p = contents (F.old p)

  pub open_file-Leaves :
      (P : Inbox → Type 0) (p : FilePath) → Leaves F P (open_file p) (λ f i. P i × (f.path ≡ p))
  unfolding open_file
  open_file-Leaves P p =
      told-Leaves F P (λ f. f.path ≡ p) (open_file-Stays F p)
        λ w v f h e. at w v f (w.files p) refl e
    where
      at :
          (w v : World) (f : File) (c : Option (List ℕ))
          → w.files p ≡ c
          → open_file p w ≡ (returned f, v)
          → f.path ≡ p
      at w v f none e q = cc (rw (e, open_file) at q)
      at w v f (some c) e q = elim (open_file-cases p c w e) [
        | inl (x, u, r, _, _) ↦ cc
        | inr (u, r, _, _, _) ↦
            let same : record { path = p; pos = 0 } ≡ f = cc in sym (ap (λ (g : File). g.path) same)
      ]

  pub seek-Leaves :
      (P : Inbox → Type 0) (f : File) (pos : ℕ)
      → Leaves F P (seek f pos) (λ g i. P i × ((g.path ≡ f.path) × (g.pos ≡ pos)))
  seek-Leaves P f pos =
      told-Leaves F P (λ g. (g.path ≡ f.path) × (g.pos ≡ pos)) (seek-Stays F f pos)
        λ w v g h e. elim (seek-cases f pos w) [
          | inl (x, u, r, _, _) ↦ cc
          | inr (u, r, _) ↦
              let same : record f { pos = pos } ≡ g = cc in
              (sym (ap (λ (k : File). k.path) same), sym (ap (λ (k : File). k.pos) same))
        ]

  pub read_chunk-Leaves :
      (P : Inbox → Type 0) (f : File) (n : ℕ)
      → Leaves F P
          (read_chunk f n)
          (λ r i. P i × ((r.0 ≡ take n (drop f.pos (content f.path))) × (r.1.path ≡ f.path)))
  read_chunk-Leaves P f n =
      told-Leaves F P (λ r. (r.0 ≡ take n (drop f.pos (content f.path))) × (r.1.path ≡ f.path))
        (read_chunk-Stays F f n)
        λ w v r h e.
          elim (read_chunk-cases f n w (content f.path)
            (ap (λ files. contents (files f.path)) h.same)) [
              | inl (x, u, q, _, _) ↦ cc
              | inr (g, u, q, _, s) ↦
                  let piece : [] ++ take n (drop f.pos (content f.path)) ≡ r.0 = cc in
                  let same : g ≡ r.1 = cc in (sym piece, ap (λ (k : File). k.path) (sym same) ∙ s)
            ]

  pub file_hash-Leaves :
      (P : Inbox → Type 0) (sha : Sha256) (f : File)
      → Leaves F P
          (file_hash sha f)
          (λ r i. P i × ((r.0 ≡ sha.digest (content f.path)) × (r.1.path ≡ f.path)))
  file_hash-Leaves P sha f =
      told-Leaves F P (λ r. (r.0 ≡ sha.digest (content f.path)) × (r.1.path ≡ f.path))
        (file_hash-Stays F sha f)
        λ w v r h e.
          elim (file_hash-cases sha f w (content f.path)
            (ap (λ files. contents (files f.path)) h.same)) [
              | inl (x, u, q, _, _) ↦ cc
              | inr (g, u, q, _, s) ↦
                  let piece : sha.digest (content f.path) ≡ r.0 = cc in
                  let same : g ≡ r.1 = cc in (sym piece, ap (λ (k : File). k.path) (sym same) ∙ s)
            ]

  pub file_len-Leaves :
      (P : Inbox → Type 0) (p : FilePath)
      → Leaves F P (file_len p) (λ n i. P i × (n ≡ length (content p)))
  unfolding file_len
  file_len-Leaves P p =
      told-Leaves F P (λ n. n ≡ length (content p)) (file_len-Stays F p)
        λ w v n h e. elim (syscall-cases (λ w. (length (contents (w.files p)), w)) w) [
          | inl (x, u, q, _, _) ↦ cc
          | inr (u, q, quiet, _) ↦
              let len : length (contents (u.files p)) ≡ n = cc in
              sym len ∙ ap (λ files. length (contents (files p))) (quiet.files ∙ h.same)
        ]
