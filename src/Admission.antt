-- ===== src/Admission.antt =====
-- Package admission (admission/*.go): the wire client and the two-phase decision.
pub mod Errors
pub mod Requests
pub mod Types
pub mod Decoding
pub mod Wire
pub mod Config
pub mod World
pub mod Canonical
pub mod Client
