-- ===== src/Examples.antt =====
-- Runs at concrete inputs, and the theorems at inputs that meet their hypotheses.
mod Toy
pub mod Wire
pub mod Files
pub mod Delivery
pub mod Inits
pub mod Repairs
pub mod Endings
pub mod Ticks
pub mod Starts
pub mod Reporters
pub mod Receives
pub mod Rounds
pub mod Copies
pub mod Links
pub mod Partials
