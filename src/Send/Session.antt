-- ===== src/Send/Session.antt =====
-- `SendSession` of lib/send.rs. Its socket is the world's.
use udpcp.Base.{ℕ, Option}
use udpcp.Report.{SocketAddr}
use udpcp.Protocol.{ProtocolVersion, SendLimits}

pub record SendSession : Type 0 where
  pub target : SocketAddr
  pub chunk_size : ℕ
  pub total_chunks : ℕ
  pub delay : Option ℕ
  pub version : ProtocolVersion
  pub limits : SendLimits
