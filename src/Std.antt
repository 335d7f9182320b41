-- ===== src/Std.antt =====
-- The conversions and the reading of lines of the C++ standard library that the program calls.
pub mod Decimal
pub mod Getline
