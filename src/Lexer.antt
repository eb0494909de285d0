-- ===== src/Lexer.antt =====
-- src/lexer.c on a string device.
pub mod Chars
pub mod Device
pub mod Words
pub mod Tokens
