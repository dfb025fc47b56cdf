-- ===== src/Parser.antt =====
-- src/parser.c: the tokens, and the WHERE clause.
pub mod Tokens
pub mod Word
pub mod Conditions
pub mod Subqueries
pub mod Where
