-- ===== src/Protocol/Nacks.antt =====
-- The payload of a NACK: the sequence numbers that the receiver writes are those that the sender
-- reads.
use udpcp.Base.{
  ℕ, ◌*◌, ◌<◌, ◌≡◌, refl, List, [], ◌∷◌, ◌++◌, length, length-append, take_all, All, arith,
  to_be_bytes, u32_mod,
}
use udpcp.Base.Words.{length-to_be_bytes, from-to_be_bytes}
use udpcp.Protocol.{encode_nack_payload, decode_nack_payload, be_words, sequence_bytes}

abbrev pub IsU32 : ℕ → Type 0
IsU32 v = v < u32_mod

pub length-encode_nack_payload :
    (seqs : List ℕ) → length (encode_nack_payload seqs) ≡ sequence_bytes * length seqs
unfolding encode_nack_payload
length-encode_nack_payload [] = refl
length-encode_nack_payload (seq ∷ seqs) = omega (
  arith,
  length-append (to_be_bytes 4 seq) (encode_nack_payload seqs),
  length-to_be_bytes 4 seq,
  length-encode_nack_payload seqs,
)

be_words-encode : (seqs : List ℕ) → All IsU32 seqs → be_words (encode_nack_payload seqs) ≡ seqs
unfolding encode_nack_payload be_words to_be_bytes
be_words-encode [] v = refl
be_words-encode (seq ∷ seqs) (v, vs) = rw (from-to_be_bytes 4 seq v, be_words-encode seqs vs)

-- Encoding sequence numbers of 32 bits and decoding as many of them appends exactly those to `out`.
pub decode-encode_nack_payload :
    (seqs out : List ℕ)
    → All IsU32 seqs
    → decode_nack_payload (length seqs) (encode_nack_payload seqs) out ≡ out ++ seqs
unfolding decode_nack_payload
decode-encode_nack_payload seqs out v =
    rw (be_words-encode seqs v, take_all (length seqs) seqs (omega arith))
