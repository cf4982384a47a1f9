-- ===== src/Protocol/ChunkSize.antt =====
-- Which chunk sizes are accepted.
use udpcp.Base.{ℕ, ◌+◌, ◌≤◌, ◌<◌, ◌≡◌, ◌↔◌, arith}
use udpcp.Error.{ok}
use udpcp.Protocol.{
  ProtocolVersion, version1, version2, verifies, validate_chunk_size, sha256_digest_size,
  header_size, max_udp_payload,
}

-- The bytes that a full DATA packet takes beside its chunk.
abbrev pub overhead : ProtocolVersion → ℕ
overhead version1 = header_size
overhead version2 = header_size + sha256_digest_size

-- A chunk size is accepted exactly when it is positive and a full DATA packet of the version,
-- header and per-chunk hash included, fits one UDP datagram.
pub validate_chunk_size_iff :
    (c : ℕ) (v : ProtocolVersion)
    → (validate_chunk_size c v ≡ ok tt) ↔ ((0 < c) × (c + overhead v ≤ max_udp_payload))
unfolding validate_chunk_size verifies
validate_chunk_size_iff c version1 = ground arith
validate_chunk_size_iff c version2 = ground arith
