-- ===== src/Protocol.antt =====
-- lib/protocol.rs: the wire format, the limits, and the helpers that the sender and the receiver
-- share. Durations are nanoseconds.
pub mod Replies
pub mod Hashing
pub mod RoundTrip
pub mod Nacks
pub mod ChunkSize
use udpcp.Base.{
  ℕ, zero, suc, ◌+◌, ◌-◌, ◌*◌, ◌/◌, ◌^◌, List, [], ◌∷◌, ◌++◌, Option, none, some, Bool, true, false,
  ◌||◌, ltb, ◌==◌, if◌then◌else◌, length, take, to_be_bytes, from_be_bytes,
}
use udpcp.Error.{Result, ok, err}
use udpcp.Report.{SocketAddr}
use udpcp.Io.{Io, send_to}

abbrev pub sha256_digest_size : ℕ
sha256_digest_size = 32

abbrev pub default_chunk_size : ℕ
default_chunk_size = 1400

-- typ(1) | seq(4) | pay_len(2)
abbrev pub header_size : ℕ
header_size = 7

abbrev pub max_udp_payload : ℕ
max_udp_payload = 65507

abbrev pub max_chunk_size : ℕ
max_chunk_size = max_udp_payload - header_size

abbrev pub sequence_bytes : ℕ
sequence_bytes = 4

abbrev pub max_nacks_per_packet : ℕ
max_nacks_per_packet = (max_udp_payload - header_size) / sequence_bytes

-- INIT payload: version(u8) | size(u64) | chunk_sz(u32) | hash(32) | name(NUL)
abbrev pub size_offset : ℕ
size_offset = 1

abbrev pub chunk_size_offset : ℕ
chunk_size_offset = size_offset + 8

abbrev pub hash_offset : ℕ
hash_offset = chunk_size_offset + 4

abbrev pub name_offset : ℕ
name_offset = hash_offset + sha256_digest_size

abbrev pub max_total_chunks : ℕ
max_total_chunks = 2 ^ 24

abbrev pub bitmap_bits_per_word : ℕ
bitmap_bits_per_word = 64

abbrev pub hash_read_buffer : ℕ
hash_read_buffer = 65536

abbrev pub bytes_per_kib : ℕ
bytes_per_kib = 1024

abbrev pub one_second : ℕ
one_second = 1_000_000_000

abbrev pub one_milli : ℕ
one_milli = 1_000_000

abbrev pub retransmit_timeout_default : ℕ
retransmit_timeout_default = 3 * one_second

abbrev pub linger_retransmit_cycles : ℕ
linger_retransmit_cycles = 5

abbrev pub default_linger_seconds : ℕ
default_linger_seconds = 3 * linger_retransmit_cycles

-- Re-NACK an unfilled gap no sooner than this.
abbrev pub nack_reissue_interval : ℕ
nack_reissue_interval = retransmit_timeout_default

pub record SendLimits : Type 0 where
  pub handshake_attempts : ℕ
  pub retransmit_passes : ℕ
  pub retransmit_timeout : ℕ
  pub nack_collection_timeout : ℕ

abbrev pub send_limits_default : SendLimits
send_limits_default = record {
  handshake_attempts = 60;
  retransmit_passes = 60;
  retransmit_timeout = retransmit_timeout_default;
  nack_collection_timeout = 500 * one_milli;
}

pub record RecvLimits : Type 0 where
  pub idle_timeout : ℕ
  pub nack_holdoff : ℕ

abbrev pub recv_limits_default : RecvLimits
recv_limits_default = record { idle_timeout = 30 * one_second; nack_holdoff = 20 * one_milli }

pub data PacketType : Type 0 where
  init ack data_chunk done nack fin fin_ack : PacketType

pub data ProtocolVersion : Type 0 where
  version1 version2 : ProtocolVersion

pub record SendConfig : Type 0 where
  pub chunk_size : ℕ
  pub delay : Option ℕ
  pub version : ProtocolVersion
  pub limits : SendLimits

pub record RecvConfig : Type 0 where
  pub serve : Bool
  pub linger_timeout : ℕ
  pub limits : RecvLimits

-- `packet_type as u8` and `PacketType::try_from`, which `wire_enum!` writes.
unfoldable pub packet_type_byte : PacketType → ℕ
packet_type_byte init = 1
packet_type_byte ack = 2
packet_type_byte data_chunk = 3
packet_type_byte done = 4
packet_type_byte nack = 5
packet_type_byte fin = 6
packet_type_byte fin_ack = 7

unfoldable pub packet_type_of : ℕ → Option PacketType
packet_type_of b =
    if b == 1
    then some init
    else (if b == 2
        then some ack
        else (if b == 3
            then some data_chunk
            else (if b == 4
                then some done
                else (if b == 5
                    then some nack
                    else (if b == 6 then some fin else (if b == 7 then some fin_ack else none))))))

unfoldable pub version_byte : ProtocolVersion → ℕ
version_byte version1 = 1
version_byte version2 = 2

unfoldable pub version_of : ℕ → Option ProtocolVersion
version_of b = if b == 1 then some version1 else (if b == 2 then some version2 else none)

unfoldable pub for_verify : Bool → ProtocolVersion
for_verify true = version2
for_verify false = version1

unfoldable pub verifies : ProtocolVersion → Bool
verifies version1 = false
verifies version2 = true

pub record PacketHeader : Type 0 where
  pub packet_type : PacketType
  pub seq : ℕ
  pub payload_len : ℕ

unfoldable pub encode_header : PacketHeader → List ℕ
unfolding packet_type_byte
encode_header h =
    packet_type_byte h.packet_type ∷ (to_be_bytes 4 h.seq ++ to_be_bytes 2 h.payload_len)

with_type : Option PacketType → ℕ → ℕ → Option PacketHeader
with_type none seq len = none
with_type (some t) seq len = some (record { packet_type = t; seq = seq; payload_len = len })

-- A buffer shorter than a header matches no clause but the last.
unfoldable pub decode_header : List ℕ → Option PacketHeader
unfolding with_type packet_type_of
decode_header (t ∷ s0 ∷ s1 ∷ s2 ∷ s3 ∷ l0 ∷ l1 ∷ rest) =
    with_type (packet_type_of t) (from_be_bytes (s0 ∷ s1 ∷ s2 ∷ s3 ∷ []))
      (from_be_bytes (l0 ∷ l1 ∷ []))
decode_header _ = none

in_bounds : ℕ → Option PacketHeader → Option (PacketHeader × ℕ)
in_bounds n none = none
in_bounds n (some h) =
    let payload_end = header_size + h.payload_len in
    if ltb n payload_end then none else some (h, payload_end)

unfoldable pub parse_packet : List ℕ → ℕ → Option (PacketHeader × ℕ)
unfolding in_bounds
parse_packet buf n = in_bounds n (decode_header (take n buf))

unfoldable pub send_packet : SocketAddr → PacketHeader → List ℕ → Io (Unit {0})
send_packet addr header payload = send_to addr (encode_header header ++ payload)

-- A header-only control packet.
unfoldable pub send_control : SocketAddr → PacketType → ℕ → Io (Unit {0})
unfolding send_packet
send_control addr t seq =
    send_packet addr (record { packet_type = t; seq = seq; payload_len = 0 }) []

unfoldable pub encode_nack_payload : List ℕ → List ℕ
encode_nack_payload [] = []
encode_nack_payload (seq ∷ seqs) = to_be_bytes 4 seq ++ encode_nack_payload seqs

-- `payload.as_chunks::<4>()` and the words that the chunks spell; what is left over is dropped.
unfoldable pub be_words : List ℕ → List ℕ
be_words (a ∷ b ∷ c ∷ d ∷ rest) = from_be_bytes (a ∷ b ∷ c ∷ d ∷ []) ∷ be_words rest
be_words _ = []

-- `out` extended by the first `count` numbers of the payload.
unfoldable pub decode_nack_payload : ℕ → List ℕ → List ℕ → List ℕ
decode_nack_payload count payload out = out ++ take count (be_words payload)

-- The error is the largest chunk size that the message names.
unfoldable pub validate_chunk_size : ℕ → ProtocolVersion → Result (Unit {0}) ℕ
unfolding verifies
validate_chunk_size chunk_size version =
    let limit : ℕ =
      if verifies version then max_chunk_size - sha256_digest_size else max_chunk_size in
    if chunk_size == 0 || ltb limit chunk_size then err limit else ok tt
