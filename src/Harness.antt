-- ===== src/Harness.antt =====
-- The test harness: tools/wasm-test-harness/src/harness.c.
pub mod Format
pub mod Registry
pub mod Log
pub mod Run
pub mod Ulp
