-- ===== src/Algo.antt =====
-- The modules of src/algo.
pub mod Crc
