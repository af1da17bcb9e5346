-- ===== src/Sched.antt =====
-- The scheduler: src/sched and src/boot/sched.c.
pub mod CpuState
pub mod Process
