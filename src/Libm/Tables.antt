-- ===== src/Libm/Tables.antt =====
-- The tables and coefficients of libm/src/musl/*_data.c; a double is its bits.
pub mod Scalars
pub mod ExpTab
pub mod LogTab
pub mod LogTab2
pub mod Log2Tab
pub mod Log2Tab2
pub mod PowTab
pub mod Rsqrt
