-- ===== src/Tests.antt =====
-- Concrete inputs for the theorems.
mod Kernels
mod Floats
mod Flows
mod Verdicts
mod Production
mod Solver
mod Safe
mod Graphs
mod Scores
mod Candidates
mod Nodes
mod Emergency
mod Playbooks
