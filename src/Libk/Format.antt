-- ===== src/Libk/Format.antt =====
-- libk/kstring_format.c: formatted output.
pub mod Output
pub mod Directives
pub mod Printing
pub mod Padding
pub mod Numbers
pub mod Plain
pub mod Rounds
pub mod Loops
pub mod Widths
