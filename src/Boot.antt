-- ===== src/Boot.antt =====
-- The parts of arch/i686/boot: the tables of the processor, and the timer.
pub mod Descriptors
pub mod Pit
pub mod Multiboot
pub mod Modules
pub mod MemoryMap
