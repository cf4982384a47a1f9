-- ===== src/EndToEnd/Packets.antt =====
-- One DATA packet: what `send_one` puts into it, `verified_body` takes out, and a payload whose hash
-- does not match is dropped.
use udpcp.Base.{
  ℕ, ◌≤◌, ◌≡◌, ◌≢◌, refl, List, ◌++◌, none, some, ltb, length, length-append, take, drop,
  take_front, drop_front, bytes_eq_refl, bytes_eq-false, le→ltb-false, arith, Bool-cases, inl, inr,
  sym,
}
use udpcp.Protocol.{ProtocolVersion, version1, version2, verifies}
use udpcp.Protocol.Hashing.{Sha256}
use udpcp.Recv.State.{ReceiveState, verified_body}
use udpcp.Send.Chunks.{data_payload}

module _ (sha : Sha256) where
  open sha use {digest, length-digest}

  -- The payload that `send_one` makes of a chunk is accepted by the receiver of the same version, as
  -- that chunk.
  pub verified_body-data_payload :
      (s : ReceiveState) (chunk : List ℕ)
      → verified_body sha s (data_payload sha s.version chunk) ≡ some chunk
  unfolding verified_body data_payload verifies
  verified_body-data_payload s chunk = at s.version
    where
      long : 32 ≤ length (digest chunk ++ chunk)
      long = omega (arith, length-append (digest chunk) chunk, length-digest chunk)

      at :
          (v : ProtocolVersion)
          → verified_body sha (record s { version = v }) (data_payload sha v chunk) ≡ some chunk
      at version1 = refl
      at version2 = rw (
        le→ltb-false _ _ long,
        drop_front (digest chunk) chunk 32 (sym (length-digest chunk)),
        take_front (digest chunk) chunk 32 (sym (length-digest chunk)),
        bytes_eq_refl (digest chunk),
      )

  -- A payload of version 2 whose hash is missing or wrong is not accepted.
  pub verified_body_damaged :
      (s : ReceiveState) (payload : List ℕ)
      → s.version ≡ version2
      → digest (drop 32 payload) ≢ take 32 payload
      → verified_body sha s payload ≡ none
  unfolding verified_body verifies
  verified_body_damaged s payload e h = elim (Bool-cases (ltb (length payload) 32)) [
    | inl short ↦ rw (e, short)
    | inr long ↦ rw (e, long, bytes_eq-false (digest (drop 32 payload)) (take 32 payload) h)
  ]
