-- ===== src/Tests.antt =====
-- Runs of the definitions at concrete inputs, and the theorems at inputs that meet their hypotheses.
mod Strings
mod Break
mod Runs
mod Doubles
mod Limits
mod Cxx
mod Trig
mod Fma
