-- ===== src/Bash/Lexer/Token.antt =====
-- The tokens of crates/bash_parser/src/lexer.rs.
use wasm_shell.Base.{ℕ, Bool, Option, Str}
use wasm_shell.Bash.Error.{Span}

pub data RedirectOp : Type 0 where
  less greater greater_greater less_greater greater_pipe greater_amp less_amp : RedirectOp

pub record RedirectToken : Type 0 where
  pub fd : Option ℕ
  pub op : RedirectOp

pub data TokenKind : Type 0 where
  word single_quote dq_text : Str → TokenKind
  double_quote_open double_quote_close : TokenKind
  pipe or_or and_and amp semi semi_semi lparen rparen lbrace rbrace bang newline : TokenKind
  redirect : RedirectToken → TokenKind
  -- the file descriptor, the delimiter, whether it is quoted, and whether it is `<<-`
  here_doc : Option ℕ → Str → Bool → Bool → TokenKind
  eof : TokenKind

pub record Token : Type 0 where
  pub kind : TokenKind
  pub span : Span
