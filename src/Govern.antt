-- ===== src/Govern.antt =====
-- Package govern (govern/*.go): the governor, and the tools and callers that it wraps.
pub mod State
pub mod Governor
pub mod Denied
pub mod Admit
pub mod Denials
pub mod Tool
pub mod Merge
pub mod Keeps
pub mod Gate
pub mod Guard
pub mod Inventory
pub mod Toolset
pub mod Throttle
pub mod Hash
pub mod Reached
pub mod Counters
pub mod Concurrent
