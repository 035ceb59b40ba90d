-- ===== src/Lib.antt =====
-- Understudy rehearses remediation plans for an incident in twins of production, chooses one by
-- a tournament, proves it safe with an SMT solver and applies it. This library models the parts
-- that decide, with paths below src/understudy:
--   Contracts     contracts/*.py, the records that the parts exchange
--   Kernel        kernel/dsl.py (Kernel/Context), kernel/invariants/k*.py (Kernel/Invariants,
--                 Kernel/Targets, Kernel/Blast) and kernel/verify.py (Kernel/Verify)
--   Orchestrator  orchestrator/state.py (State, Reconcile), orchestrator/graph.py (Graph) and
--                 orchestrator/nodes/safety_kernel.py and actuate.py (Nodes), orchestrator/cleanup.py
--                 and orchestrator/timeouts.py (Emergency)
--   Planner       planner/inverse.py (Inverse), planner/prompt.py (Prompt) and planner/validate.py
--                 (Schema, Normalise, Candidates)
--   Playbook      playbook/confirmation.py
--   Graph         graph/service_graph.py and graph/models.py
--   Tournament    tournament/scorer.py (Scorer) and tournament/arbiter.py (Arbiter, and
--                 Floats for its arithmetic)
--   Actuator      actuator/production.py
--   Tests         concrete inputs of the theorems
-- A method of KernelContext is an action of the same name on the record Context; an exception is a
-- value of Outcome. Each `build` of an invariant is an action that gives a Formula of Kernel/Term.
-- The solver is Z3: a parameter of `verify`, of which IsSound says that its answers are right.
-- The graph's nodes are a parameter of `run`: what a node returns or raises is any function of the
-- node and the state. A run has fuel for fourteen nodes, the length of the longest path. In K4 the
-- search over callers has fuel for each member of a set in the facts and of the first queue, and so
-- has the one of the service graph, where this is proved to be enough.
-- Floats are fractions, scores count millionths, times count microseconds; int and float texts are
-- not read. In the arbiter the float operations are a parameter: IsAccurate of Floats says that each
-- errs by less than a quarter of a millionth between -1 and 1. The actuator's effects are a list in
-- their order; the applier, the probe and the settings are parameters. Not modelled: the other nodes
-- of the control loop, signals, notification, stores and the twins' fleet, which mostly talk to
-- services; the planner's model, the reading of its JSON and the texts of its errors are parameters
-- of Candidates.
pub mod Common
pub mod Contracts
pub mod Kernel
pub mod Orchestrator
pub mod Planner
pub mod Playbook
pub mod Tournament
pub mod Actuator
pub mod Graph
pub mod Tests
