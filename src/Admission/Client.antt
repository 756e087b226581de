-- ===== src/Admission/Client.antt =====
-- admission/client.go: the client, one request to the edge, and the two-phase decision.
pub mod Messages
pub mod Construct
pub mod Request
pub mod Decide
pub mod Loop
pub mod Safety
pub mod Sent
pub mod Deadlines
pub mod Interpret
pub mod Verdicts
pub mod FailClosed
pub mod Target
pub mod InOrder
pub mod Settled
pub mod Delivers
pub mod Complete
pub mod HoldAnswered
pub mod Retry
pub mod Outcomes
pub mod Reported
pub mod Failures
pub mod Faults
