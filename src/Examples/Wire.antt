-- ===== src/Examples/Wire.antt =====
-- Headers, packets and NACK payloads of lib/protocol.rs.
use udpcp.Base.{
  ℕ, ◌+◌, ◌≤◌, ◌≡◌, refl, List, [], ◌∷◌, ◌++◌, none, some, length, arith, to_be_bytes,
  from_be_bytes,
}
use udpcp.Error.{ok}
use udpcp.Protocol.{
  PacketHeader, nack, encode_header, decode_header, parse_packet, header_size, encode_nack_payload,
  decode_nack_payload, validate_chunk_size, version2,
}
use udpcp.Protocol.RoundTrip.{IsHeader, parse_packet-encode, parse_packet-inv}
use udpcp.Protocol.Nacks.{decode-encode_nack_payload}
use udpcp.Protocol.ChunkSize.{validate_chunk_size_iff}

abbrev nack_header : PacketHeader
nack_header = record { packet_type = nack; seq = 2; payload_len = 1 }

nack_header_bytes : encode_header nack_header ≡ 5 ∷ 0 ∷ 0 ∷ 0 ∷ 2 ∷ 0 ∷ 1 ∷ []
unfolding encode_header to_be_bytes
nack_header_bytes = refl

short_buffer : decode_header (1 ∷ 1 ∷ 1 ∷ 1 ∷ 1 ∷ 1 ∷ []) ≡ none
unfolding decode_header
short_buffer = refl

parse_packet-encode_example :
    parse_packet (encode_header nack_header ++ 9 ∷ 9 ∷ []) 9 ≡ some (nack_header, 8)
unfolding encode_header to_be_bytes
parse_packet-encode_example =
    parse_packet-encode nack_header (9 ∷ 9 ∷ []) (omega arith) (omega arith)

abbrev nack_packet : List ℕ
nack_packet = 5 ∷ 0 ∷ 0 ∷ 0 ∷ 2 ∷ 0 ∷ 1 ∷ 9 ∷ []

nack_packet_parses : parse_packet nack_packet 8 ≡ some (nack_header, 8)
unfolding parse_packet decode_header from_be_bytes
nack_packet_parses = refl

parse_packet-inv_example :
    (rest : List ℕ) × (nack_packet ≡ encode_header nack_header ++ rest)
    × IsHeader nack_header
    × (1 ≤ length rest)
    × (8 ≡ header_size + 1)
parse_packet-inv_example =
    parse_packet-inv nack_packet nack_header 8 (omega arith) nack_packet_parses

decode-encode_nack_payload_example :
    decode_nack_payload 2 (encode_nack_payload (7 ∷ 300 ∷ [])) (1 ∷ []) ≡ 1 ∷ 7 ∷ 300 ∷ []
decode-encode_nack_payload_example =
    decode-encode_nack_payload (7 ∷ 300 ∷ []) (1 ∷ []) (omega arith)

validate_chunk_size_iff_example : validate_chunk_size 65468 version2 ≡ ok tt
validate_chunk_size_iff_example =
    (validate_chunk_size_iff 65468 version2).1 (omega arith, omega arith)
