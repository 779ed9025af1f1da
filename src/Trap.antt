-- ===== src/Trap.antt =====
-- interrupts/context_switch.c: the trap handlers, and what they use.
pub mod Decode
pub mod PageTable
pub mod Context
pub mod Interrupt
pub mod Exception
pub mod Lifecycle
