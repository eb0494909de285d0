-- ===== src/Compile.antt =====
-- src/parser.c and src/compile.c on the list of the lexemes that `akl_lex` returns.
pub mod Parse
pub mod Forms
pub mod Lists
pub mod Expr
mod Tests
