-- ===== src/Examples.antt =====
-- The theorems at concrete inputs, and runs of the functions.
mod Scheduling
mod Memory
mod Texts
mod Devices
mod Tables
mod Fairness
mod Printing
mod Bytes
mod Heaps
mod Startup
