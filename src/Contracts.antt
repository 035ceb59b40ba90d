-- ===== src/Contracts.antt =====
-- The data contracts of src/understudy/contracts: enums.py, plan.py, incident.py, twin.py,
-- evidence.py and run.py. A datetime is its number of microseconds since the epoch.
pub mod Enums
pub mod Plan
pub mod Incident
pub mod Evidence
pub mod Run
