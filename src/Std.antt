-- ===== src/Std.antt =====
-- What the program uses of Rust's standard library: `str` and `Path` methods, big-endian words.
pub mod Text
pub mod Path
pub mod Word
