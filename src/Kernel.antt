-- ===== src/Kernel.antt =====
-- src/understudy/kernel: the safety kernel.
pub mod Facts
pub mod Term
pub mod Context
pub mod Invariants
pub mod Targets
pub mod Blast
pub mod Verify
