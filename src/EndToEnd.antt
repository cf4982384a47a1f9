-- ===== src/EndToEnd.antt =====
-- The two sides together: what lib/send.rs sends, lib/recv.rs understands.
pub mod Transfer
pub mod Packets
pub mod Inits
pub mod Nacks
pub mod Repair
pub mod Rounds
pub mod Copy
pub mod Session
pub mod Carried
pub mod Confirmed
