-- ===== src/Core.antt =====
-- The modules of src/core.
pub mod RingBuf
pub mod IntrusiveList
pub mod Timer
pub mod Queue
pub mod Bytes
pub mod EventFlags
