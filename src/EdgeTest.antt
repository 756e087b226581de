-- ===== src/EdgeTest.antt =====
-- Package edgetest (internal/edgetest/edge.go): the fake edge that the tests of the module talk to.
pub mod Script
pub mod Edge
pub mod Serving
pub mod Link
pub mod OnTime
pub mod EndToEnd
