-- ===== src/Libc.antt =====
-- The C library (libc/src): the memory and string routines of libc/src/musl and the `sbrk` of
-- libc/src/dlmalloc.
pub mod Memcpy
pub mod Memset
pub mod Memmove
pub mod Memcmp
pub mod Strlen
pub mod Sbrk
pub mod Dlmalloc
