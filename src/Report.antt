-- ===== src/Report.antt =====
-- lib/report.rs: the events that a transfer hands to its reporter, and the socket addresses that
-- they and the packets carry. Paths are byte strings, durations are nanoseconds.
pub mod Texts
use udpcp.Base.{ℕ, List, Bool, false, ◌==◌, ◌&&◌}
use udpcp.Error.{IoError, InitError}

-- `SocketAddr`: an address of either family with its port.
pub data SocketAddr : Type 0 where
  v4 v6 : ℕ → ℕ → SocketAddr

unfoldable pub addr_eq : SocketAddr → SocketAddr → Bool
addr_eq (v4 a p) (v4 b q) = a == b && p == q
addr_eq (v4 a p) (v6 b q) = false
addr_eq (v6 a p) (v4 b q) = false
addr_eq (v6 a p) (v6 b q) = a == b && p == q

pub data TransferEvent : Type 0 where
  -- name, bytes, chunks
  sending : List ℕ → ℕ → ℕ → TransferEvent
  -- pass, chunks
  pass_started : ℕ → ℕ → TransferEvent
  -- done, total, chunk size, elapsed
  progress : ℕ → ℕ → ℕ → ℕ → TransferEvent
  completed : TransferEvent
  listening : SocketAddr → TransferEvent
  -- path, bytes, chunks, chunk size
  receiving : List ℕ → ℕ → ℕ → ℕ → TransferEvent
  missing_chunks : ℕ → TransferEvent
  -- path, bytes, elapsed
  saved : List ℕ → ℕ → ℕ → TransferEvent
  bad_init : InitError → TransferEvent
  failed : IoError → TransferEvent
