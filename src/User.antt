-- ===== src/User.antt =====
-- The user library, lib/, and what is modelled of the user programs, user/.
pub mod Pipe
pub mod Memory
pub mod Time
pub mod Number
pub mod Format
pub mod Args
pub mod Strings
pub mod Fd
pub mod Fork
pub mod Shell
