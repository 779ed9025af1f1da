-- ===== src/Sbi.antt =====
-- sbi_commands.c and sbi_commands/: the supervisor's calls.
pub mod Codes
pub mod BaseExtension
pub mod Time
pub mod Valid
pub mod HartMask
pub mod Ipi
pub mod RemoteFence
pub mod HartState
pub mod SystemReset
pub mod Dispatch
pub mod Broadcast
