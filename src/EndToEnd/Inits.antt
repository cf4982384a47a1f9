-- ===== src/EndToEnd/Inits.antt =====
-- The INIT that `handshake` (lib/send.rs) sends, at the `parse_init` of lib/recv.rs.
use udpcp.Base.{
  ℕ, ◌≤◌, ◌<◌, ◌%◌, ◌≡◌, refl, sym, List, [], ◌∷◌, ◌++◌, Option, length, length-append, drop,
  take_front, drop_front, to_be_bytes, from_be_bytes, div_ceil, u32_mod, u64_mod, arith, slice, ◌∙◌,
  le→ltb-false,
}
use udpcp.Base.Words.{from-to_be_bytes}
use udpcp.Error.{ok}
use udpcp.Io.Disk.{FilePath}
use udpcp.Protocol.{ProtocolVersion, validate_chunk_size, max_total_chunks}
use udpcp.Protocol.RoundTrip.{version_of-byte}
use udpcp.Recv.Init.{
  parse_init, parse_fields, parse_version, check_chunk_size, bounded_header, choose_path,
}
use udpcp.Send.Session.{SendSession}
use udpcp.Send.Handshake.{init_payload}

-- The metadata of a transfer that the sender has checked fits the packet.
pub record IsOffer (s : SendSession) (size : ℕ) (hash : List ℕ) : Type 0 where
  pub chunk_word : s.chunk_size < u32_mod
  pub chunk_valid : validate_chunk_size s.chunk_size s.version ≡ ok tt
  pub size_word : size < u64_mod
  pub chunks_bounded : div_ceil size s.chunk_size ≤ max_total_chunks
  pub digest_size : length hash ≡ 32

bounded_header_ok :
    (s : SendSession) (size : ℕ) (hash names : List ℕ) (out : Option FilePath) (path : FilePath)
    → div_ceil size s.chunk_size ≤ max_total_chunks
    → choose_path names out ≡ ok path
    → bounded_header s.version size s.chunk_size hash names out
      ≡ ok (record {
        version = s.version;
        size = size;
        chunk_size = s.chunk_size;
        total = div_ceil size s.chunk_size % u32_mod;
        hash = hash;
        final_path = path;
      })
unfolding bounded_header
bounded_header_ok s size hash names out path h e = rw (le→ltb-false _ _ h, e)

parse_init_long :
    (payload : List ℕ) (out : Option FilePath)
    → 45 ≤ length payload
    → parse_init payload out ≡ parse_fields payload out
unfolding parse_init
parse_init_long payload out h = rw (le→ltb-false _ _ h)

init_payload_long :
    (s : SendSession) (name : List ℕ) (size : ℕ) (hash : List ℕ)
    → length hash ≡ 32
    → 45 ≤ length (init_payload s name size hash)
unfolding init_payload to_be_bytes
init_payload_long s name size hash e = omega (arith, length-append hash (name ++ 0 ∷ []))

parse_fields_steps :
    (payload : List ℕ) (out : Option FilePath) (version : ProtocolVersion) (size c : ℕ)
    (hash names : List ℕ)
    → parse_version payload ≡ ok version
    → from_be_bytes (slice 1 9 payload) ≡ size
    → from_be_bytes (slice 9 13 payload) ≡ c
    → check_chunk_size c version ≡ ok tt
    → slice 13 45 payload ≡ hash
    → drop 45 payload ≡ names
    → parse_fields payload out ≡ bounded_header version size c hash names out
unfolding parse_fields
parse_fields_steps payload out version size c hash names pv ps pc pk ph pn =
    rw (pv, ps, pc, pk, ph, pn, parse_fields) refl

check_chunk_size_ok :
    (c : ℕ) (version : ProtocolVersion)
    → validate_chunk_size c version ≡ ok tt
    → check_chunk_size c version ≡ ok tt
unfolding check_chunk_size
check_chunk_size_ok c version h = rw (h, check_chunk_size) refl

parse_version-init_payload :
    (s : SendSession) (name : List ℕ) (size : ℕ) (hash : List ℕ)
    → parse_version (init_payload s name size hash) ≡ ok s.version
unfolding parse_version init_payload
parse_version-init_payload s name size hash = rw (version_of-byte s.version, parse_version) refl

parse_fields-init_payload :
    (s : SendSession) (name : List ℕ) (size : ℕ) (hash : List ℕ) (out : Option FilePath)
    → IsOffer s size hash
    → parse_fields (init_payload s name size hash) out
      ≡ bounded_header s.version size s.chunk_size hash (name ++ 0 ∷ []) out
parse_fields-init_payload s name size hash out v =
    parse_fields_steps (init_payload s name size hash) out s.version size s.chunk_size hash
      (name ++ 0 ∷ []) (parse_version-init_payload s name size hash)
      (unfold init_payload to_be_bytes in from-to_be_bytes 8 size v.size_word)
      (unfold init_payload to_be_bytes in from-to_be_bytes 4 s.chunk_size v.chunk_word)
      (check_chunk_size_ok s.chunk_size s.version v.chunk_valid)
      (unfold init_payload to_be_bytes in take_front hash (name ++ 0 ∷ []) 32 (sym v.digest_size))
      (unfold init_payload to_be_bytes in drop_front hash (name ++ 0 ∷ []) 32 (sym v.digest_size))

-- The receiver reads from the sender's INIT the sender's version, file size, chunk size and hash,
-- and computes the same chunk count, for a transfer that the sender has checked and a name or an
-- override that gives a path.
pub parse_init-init_payload :
    (s : SendSession) (name : List ℕ) (size : ℕ) (hash : List ℕ) (out : Option FilePath)
    (path : FilePath)
    → IsOffer s size hash
    → choose_path (name ++ 0 ∷ []) out ≡ ok path
    → parse_init (init_payload s name size hash) out
      ≡ ok (record {
        version = s.version;
        size = size;
        chunk_size = s.chunk_size;
        total = div_ceil size s.chunk_size % u32_mod;
        hash = hash;
        final_path = path;
      })
parse_init-init_payload s name size hash out path v e =
    parse_init_long (init_payload s name size hash) out
      (init_payload_long s name size hash v.digest_size)
    ∙ parse_fields-init_payload s name size hash out v
    ∙ bounded_header_ok s size hash (name ++ 0 ∷ []) out path v.chunks_bounded e
