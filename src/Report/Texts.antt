-- ===== src/Report/Texts.antt =====
-- What the standard library writes for the values of an event: `Display` of numbers, addresses,
-- paths and errors. The reporters take it as a parameter.
use udpcp.Base.{ℕ, List}
use udpcp.Error.{IoError, InitError}
use udpcp.Report.{SocketAddr}
use udpcp.Io.Disk.{FilePath}

pub record Texts : Type 0 where
  pub number : ℕ → List ℕ
  pub addr : SocketAddr → List ℕ
  pub path : FilePath → List ℕ
  pub init_reason : InitError → List ℕ
  pub reason : IoError → List ℕ
