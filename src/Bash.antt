-- ===== src/Bash.antt =====
-- The parser in crates/bash_parser/src: the lexer and the words and grammar on top of it.
pub mod Error
pub mod Ast
pub mod Lexer
pub mod Action
pub mod Names
pub mod Words
pub mod WordParts
pub mod Parser
pub mod Fill
mod Tests
