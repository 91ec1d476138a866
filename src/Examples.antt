-- ===== src/Examples.antt =====
-- The theorems at concrete timers, tables, packets and messages.
pub mod Timers
pub mod Daemons
pub mod Tables
pub mod Kernel
pub mod Pointers
pub mod Messages
pub mod Inputs
