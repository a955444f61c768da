-- ===== src/Libcxx.antt =====
-- The C++ runtime of libcxx/src.
pub mod NextPrime
pub mod New
