-- ===== src/Send.antt =====
-- lib/send.rs: the sender.
pub mod Blast
pub mod Session
pub mod Packets
pub mod Handshake
pub mod Chunks
pub mod Feedback
pub mod Run
pub mod Delay
