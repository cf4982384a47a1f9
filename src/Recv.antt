-- ===== src/Recv.antt =====
-- lib/recv.rs: the receiver.
pub mod Paths
pub mod Utf8
pub mod Init
pub mod State
pub mod Gaps
pub mod Finish
pub mod Linger
pub mod Loop
pub mod Run
