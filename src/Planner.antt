-- ===== src/Planner.antt =====
-- src/understudy/planner: the inverse of a plan, and the candidates that a model proposes.
pub mod Inverse
pub mod Prompt
pub mod Schema
pub mod Normalise
pub mod Candidates
