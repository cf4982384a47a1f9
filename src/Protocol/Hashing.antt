-- ===== src/Protocol/Hashing.antt =====
-- `file_hash` and `read_chunk` of lib/protocol.rs, which read a file through short reads, and the
-- SHA-256 of the sha2 crate, which is a parameter.
pub mod Laws
use udpcp.Base.{ℕ, zero, suc, ◌+◌, ◌-◌, ◌≡◌, List, [], ◌∷◌, ◌++◌, length, if◌then◌else◌, ◌==◌, leb}
use udpcp.Io.{Io, pure, ◌>>=◌, ◌>>◌, out_of_fuel}
use udpcp.Io.FileOps.{File, read, seek, contents}
use udpcp.Protocol.{sha256_digest_size, hash_read_buffer}

-- The hasher: fed piece by piece it gives the digest of the pieces joined, 32 bytes long.
pub record Sha256 : Type 1 where
  pub Hasher : Type 0
  pub new : Hasher
  pub update : Hasher → List ℕ → Hasher
  pub finalize : Hasher → List ℕ
  pub digest : List ℕ → List ℕ
  pub Fed : Hasher → List ℕ → Type 0
  pub fed_new : Fed new []
  pub fed_update : (h : Hasher) (bs more : List ℕ) → Fed h bs → Fed (update h more) (bs ++ more)
  pub fed_finalize : (h : Hasher) (bs : List ℕ) → Fed h bs → finalize h ≡ digest bs
  pub length-digest : (bs : List ℕ) → length (digest bs) ≡ sha256_digest_size

module _ (sha : Sha256) where
  open sha use {Hasher, new, update, finalize}

  -- One round reads a piece; an empty piece is the end of the file.
  pub hash_loop : ℕ → File → Hasher → Io (List ℕ × File)
  hash_loop zero f hasher = out_of_fuel
  hash_loop (suc fuel) f hasher = read f hash_read_buffer >>= λ (piece, f').
      let rest = hash_loop fuel f' (update hasher piece) in
      if length piece == 0 then pure (finalize hasher, f') else rest

  -- Each round but the last moves the cursor, so the length of the file and one bound the rounds.
  unfoldable pub file_hash : File → Io (List ℕ × File)
  unfolding hash_loop
  file_hash f w =
      let fuel = suc (length (contents (w.files f.path))) in
      (seek f 0 >>= λ f'. hash_loop fuel f' new) w

-- The bytes read so far, and the room left in the buffer.
pub read_loop : ℕ → File → List ℕ → ℕ → Io (List ℕ × File)
read_loop zero f got room = if room == 0 then pure (got, f) else out_of_fuel
read_loop (suc fuel) f got room =
    let more = read f room >>= λ (piece, f').
    let rest = read_loop fuel f' (got ++ piece) (room - length piece) in
    if length piece == 0 then pure (got, f') else rest in
    if room == 0 then pure (got, f) else more

-- The buffer's first `n` bytes are the value, for a buffer of `len` bytes.
unfoldable pub read_chunk : File → ℕ → Io (List ℕ × File)
unfolding read_loop
read_chunk f len = read_loop len f [] len
