-- ===== src/Strings.antt =====
-- util/strings.h: numbers as text, and escaping.
pub mod Number
pub mod Escape
mod Tests
