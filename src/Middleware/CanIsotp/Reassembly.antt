-- ===== src/Middleware/CanIsotp/Reassembly.antt =====
-- A message in frames, and the receiver that takes them.
pub mod Store
pub mod Step
pub mod Last
pub mod Whole
pub mod First
pub mod Consecutive
pub mod Message
