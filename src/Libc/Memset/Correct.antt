-- ===== src/Libc/Memset/Correct.antt =====
-- `memset` against the plain fill.
mod Stores
pub mod Final
