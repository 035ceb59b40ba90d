-- ===== src/Orchestrator.antt =====
-- src/understudy/orchestrator: the state of an incident, its reducers, the control-loop graph, and
-- the nodes around the safety kernel and the actuator.
pub mod Reconcile
pub mod State
pub mod Graph
pub mod Nodes
pub mod Emergency
