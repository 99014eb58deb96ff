-- ===== src/Std.antt =====
-- The parts of Rust's standard library that the program uses.
pub mod Order
pub mod Sort
pub mod Numbers
pub mod Strings
pub mod Time
pub mod Net
pub mod Io
