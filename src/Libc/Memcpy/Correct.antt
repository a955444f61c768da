-- ===== src/Libc/Memcpy/Correct.antt =====
-- `memcpy` against the plain copy: parts of the proof, and the theorem in `Final`.
mod Merge
mod Shift
mod Tail
pub mod Final
