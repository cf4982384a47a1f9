-- ===== src/Recv/Init.antt =====
-- `parse_init` of lib/recv.rs: the metadata of a transfer, or why the INIT is refused.
pub mod Accepts
pub mod Names
use udpcp.Base.{
  ℕ, suc, ◌+◌, ◌%◌, ◌^◌, List, [], ◌∷◌, ◌++◌, Option, none, some, Bool, ltb, ◌==◌, if◌then◌else◌,
  length, take, drop, slice, from_be_bytes, div_ceil, u32_mod, get_elem?,
}
use udpcp.Error.{
  Result, ok, err, InitError, too_short, version_mismatch, chunk_size_range, transfer_too_large,
  invalid_utf8, invalid_filename, control_characters,
}
use udpcp.Io.Disk.{FilePath}
use udpcp.Protocol.{
  ProtocolVersion, version_of, validate_chunk_size, name_offset, size_offset, chunk_size_offset,
  hash_offset, sha256_digest_size, max_total_chunks,
}
use udpcp.Recv.Utf8.{from_utf8, any_control}
use udpcp.Recv.Paths.{file_name}

pub record InitHeader : Type 0 where
  pub version : ProtocolVersion
  pub size : ℕ
  pub chunk_size : ℕ
  pub total : ℕ
  pub hash : List ℕ
  pub final_path : FilePath

infixl 10 ◌>>=◌
abbrev ◌>>=◌ : {A B : Type 0} → Result A InitError → (A → Result B InitError) → Result B InitError
ok a >>= f = f a
err e >>= f = err e

-- `name_bytes[..end]` for the first NUL, or all of them.
unfoldable pub until_nul : List ℕ → List ℕ
until_nul [] = []
until_nul (b ∷ bs) = if b == 0 then [] else b ∷ until_nul bs

unfoldable pub parse_version : List ℕ → Result ProtocolVersion InitError
parse_version [] = err (too_short 0)
parse_version (b ∷ bs) = elim (version_of b) [ none ↦ err (version_mismatch b) | some v ↦ ok v ]

unfoldable pub check_chunk_size : ℕ → ProtocolVersion → Result (Unit {0}) InitError
check_chunk_size c v = elim (validate_chunk_size c v) [
  | ok u ↦ ok u
  | err limit ↦ err (chunk_size_range limit)
]

-- The last component of the name, unless it holds control characters.
checked_name : Option (List ℕ) → Result FilePath InitError
checked_name none = err invalid_filename
checked_name (some name) = elim (from_utf8 name) [
  | none ↦ err invalid_filename
  | some chars ↦ if any_control chars then err control_characters else ok name
]

unfoldable pub choose_path : List ℕ → Option FilePath → Result FilePath InitError
unfolding checked_name until_nul
choose_path name_bytes (some out) = ok out
choose_path name_bytes none = elim (from_utf8 (until_nul name_bytes)) [
  | none ↦ err invalid_utf8
  | some raw ↦ checked_name (file_name (until_nul name_bytes))
]

-- The chunk count is bounded and the path chosen.
unfoldable pub bounded_header :
    ProtocolVersion → ℕ → ℕ → List ℕ → List ℕ → Option FilePath → Result InitHeader InitError
bounded_header version size chunk_size hash name_bytes out =
    let total_u64 = div_ceil size chunk_size in
    if ltb max_total_chunks total_u64
    then err (transfer_too_large total_u64 max_total_chunks)
    else (choose_path name_bytes out >>= λ final_path. ok (record {
      version = version;
      size = size;
      chunk_size = chunk_size;
      total = total_u64 % u32_mod;
      hash = hash;
      final_path = final_path;
    }))

-- The fields of a payload that is long enough.
unfoldable pub parse_fields : List ℕ → Option FilePath → Result InitHeader InitError
unfolding parse_version check_chunk_size
parse_fields payload out = parse_version payload >>= λ version.
    let size = from_be_bytes (slice size_offset chunk_size_offset payload) in
    let chunk_size = from_be_bytes (slice chunk_size_offset hash_offset payload) in
    check_chunk_size chunk_size version >>= λ _.
    bounded_header version size chunk_size
      (slice hash_offset (hash_offset + sha256_digest_size) payload) (drop name_offset payload) out

unfoldable pub parse_init : List ℕ → Option FilePath → Result InitHeader InitError
unfolding parse_fields
parse_init payload out =
    if ltb (length payload) name_offset
    then err (too_short (length payload))
    else parse_fields payload out
