-- ===== src/Mem.antt =====
-- Memory management: src/mem and arch/i686/mem.
pub mod Align
pub mod Static
pub mod Frames
pub mod Pages
pub mod Heap
