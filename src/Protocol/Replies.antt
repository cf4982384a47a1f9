-- ===== src/Protocol/Replies.antt =====
-- What a receiver may answer at any time: an ACK, or a NACK of some chunks.
use udpcp.Base.{ℕ, ◌%◌, ◌≤◌, ◌<◌, ◌≡◌, List, [], ◌++◌, All, length, u16_mod, u32_mod}
use udpcp.Protocol.{
  ack, nack, fin, encode_header, encode_nack_payload, max_nacks_per_packet, max_total_chunks,
}

abbrev pub ack_bytes : List ℕ
ack_bytes = encode_header (record { packet_type = ack; seq = 0; payload_len = 0 }) ++ []

abbrev pub fin_bytes : List ℕ
fin_bytes = encode_header (record { packet_type = fin; seq = 0; payload_len = 0 }) ++ []

abbrev pub nack_bytes : List ℕ → List ℕ
nack_bytes batch =
    let payload = encode_nack_payload batch in
    encode_header (record {
      packet_type = nack;
      seq = length batch % u32_mod;
      payload_len = length payload % u16_mod;
    })
    ++ payload

-- Numbers of chunks that a file can have.
abbrev pub AllSeqs : List ℕ → Type 0
AllSeqs batch = All (λ k. k < max_total_chunks) batch

pub data IsReply (d : List ℕ) : Type 0 where
  reply_ack : d ≡ ack_bytes → IsReply d
  reply_nack :
      (batch : List ℕ)
      → 0 < length batch
      → length batch ≤ max_nacks_per_packet
      → AllSeqs batch
      → d ≡ nack_bytes batch
      → IsReply d
