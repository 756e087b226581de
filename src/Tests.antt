-- ===== src/Tests.antt =====
-- Runs of the modelled program at concrete inputs, and the theorems at inputs that meet their
-- hypotheses.
mod Open
mod Runs
mod Fixtures
mod OfClient
mod OfGovernor
mod OfEdge
mod OfConcurrent
