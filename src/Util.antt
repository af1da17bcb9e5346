-- ===== src/Util.antt =====
-- The parts of src/util.
pub mod Tar
