-- ===== src/Rust.antt =====
-- The parts of Rust's standard library that the tools call, translated from its documentation.
pub mod Str
pub mod Word
pub mod Parse
pub mod Range
pub mod Decimal
pub mod Utf8
pub mod Print
