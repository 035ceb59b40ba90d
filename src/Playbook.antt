-- ===== src/Playbook.antt =====
-- src/understudy/playbook: which remembered plan is kept.
pub mod Confirmation
