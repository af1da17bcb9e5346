-- ===== src/Mem/Heap.antt =====
-- arch/i686/mem/heap.c: the kernel heap.
pub mod Blocks
pub mod Growth
pub mod Holes
pub mod Allocation
pub mod Freeing
pub mod BestFit
pub mod Headers
pub mod Region
pub mod Placement
