-- ===== src/Send/Packets.antt =====
-- The datagrams that lib/send.rs may send, apart from the code that sends them.
use udpcp.Base.{ℕ, ◌%◌, ◌<◌, ◌≡◌, List, [], ◌++◌, length, u16_mod}
use udpcp.Report.{SocketAddr}
use udpcp.Io.Leaves.{Frame}
use udpcp.Protocol.{PacketType, init, data_chunk, done, fin_ack, encode_header}
use udpcp.Protocol.Hashing.{Sha256}
use udpcp.Recv.State.Assembly.{chunk_of}
use udpcp.Send.Session.{SendSession}
use udpcp.Send.Handshake.{init_payload}
use udpcp.Send.Chunks.{data_payload}

abbrev pub packet_bytes : PacketType → ℕ → List ℕ → List ℕ
packet_bytes t seq payload =
    encode_header (record { packet_type = t; seq = seq; payload_len = length payload % u16_mod })
    ++ payload

abbrev pub control_bytes : PacketType → ℕ → List ℕ
control_bytes t seq = encode_header (record { packet_type = t; seq = seq; payload_len = 0 }) ++ []

module _ (sha : Sha256) (s : SendSession) (whole : List ℕ) where
  -- Chunk `seq` of the file.
  abbrev pub chunk_bytes : ℕ → List ℕ
  chunk_bytes seq =
      packet_bytes data_chunk seq (data_payload sha s.version (chunk_of whole s.chunk_size seq))

  abbrev pub init_bytes : List ℕ → List ℕ
  init_bytes name = packet_bytes init 0 (init_payload s name (length whole) (sha.digest whole))

  -- The packets of a session for the file `whole` under the name `name`.
  pub data IsOurs (name : List ℕ) (a : SocketAddr) (d : List ℕ) : Type 0 where
    our_init : a ≡ s.target → d ≡ init_bytes name → IsOurs name a d
    our_chunk :
        (seq : ℕ) → seq < s.total_chunks → a ≡ s.target → d ≡ chunk_bytes seq → IsOurs name a d
    our_done : a ≡ s.target → d ≡ control_bytes done s.total_chunks → IsOurs name a d
    our_fin_ack : d ≡ control_bytes fin_ack 0 → IsOurs name a d

  -- The frame permits them.
  pub record Allows (F : Frame) (name : List ℕ) : Type 0 where
    pub each : (a : SocketAddr) (d : List ℕ) → IsOurs name a d → F.Good (a, d)
