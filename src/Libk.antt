-- ===== src/Libk.antt =====
-- The files of libk: the kernel's small C library.
pub mod Char
pub mod List
pub mod Memory
pub mod SortedArray
pub mod Format
pub mod String
