-- ===== src/Libm.antt =====
-- The functions of libm/src/musl on doubles.
pub mod Double
pub mod Pattern
pub mod Tables
pub mod Math
pub mod Rounding
pub mod Exp
pub mod Log
pub mod Log2
pub mod Log10
pub mod Pow
pub mod Sqrt
pub mod Remquo
pub mod Hypot
pub mod Kernels
pub mod RemPio2
pub mod Trig
pub mod Inverse
pub mod Fma
