-- ===== src/Govern/Concurrent.antt =====
-- A governor under concurrent calls (govern/governor.go: Admit on many goroutines).
pub mod Call
pub mod System
pub mod Alone
pub mod Tally
pub mod Backed
pub mod Later
pub mod Honest
