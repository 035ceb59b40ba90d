-- ===== src/Graph.antt =====
-- src/understudy/graph: the services' dependency graph and its check against observed traffic.
pub mod Service
pub mod CrossCheck
