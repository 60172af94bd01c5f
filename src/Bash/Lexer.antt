-- ===== src/Bash/Lexer.antt =====
-- crates/bash_parser/src/lexer.rs. The lexer is its position in bytes with the text from there on. Each loop over
-- the text is a function of both that gives the lexer after it; a slice of the source is what lies between two
-- lexers.
pub mod Token
pub mod Scan
pub mod Word
pub mod Places
pub mod Redirect
pub mod Fragment
pub mod Next
pub mod Heredoc
