-- ===== src/Kernel.antt =====
-- The parts of src/kernel: the console, messages, timers, interrupts, sleeping, symbols and the initial ramdisk.
pub mod Console
pub mod Initrd
pub mod Interrupt
pub mod Printk
pub mod Sleep
pub mod Symbols
pub mod Timer
