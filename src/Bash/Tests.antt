-- ===== src/Bash/Tests.antt =====
-- The lexer and the parser on concrete texts.
use wasm_shell.Base.{
  ◌+◌, ◌≡◌, ◌≢◌, Lacks-of_test, refl, arith, true, false, [], ◌∷◌, ◌++◌, codes, ok, err,
  contains_char, map, trim_start_matches,
}
use wasm_shell.Base.Utf8.{len_utf8, byte_len}
use wasm_shell.Bash.Error.{panic, no_fuel, new_span}
use wasm_shell.Bash.Ast.{no_commands, next_command, simple, single_quoted}
use wasm_shell.Bash.Lexer.Token.{dq_text}
use wasm_shell.Bash.Lexer.Scan.{at}
use wasm_shell.Bash.Lexer.Word.Bounds.{Lexes}
use wasm_shell.Bash.Lexer.Heredoc.{Pending, stripped, collect_heredoc_bodies}
use wasm_shell.Bash.Lexer.Heredoc.RoundTrip.{
  Written, written, written_len, with_ends, collect_heredoc_bodies-written,
}
use wasm_shell.Bash.Lexer.Next.{next_token}
use wasm_shell.Bash.Lexer.Next.Bounds.{next_token-Lexes}
use wasm_shell.Bash.Lexer.Next.RoundTrip.{escape_dq, next_token-escape_dq}
use wasm_shell.Bash.Names.{extract_balanced}
use wasm_shell.Bash.Names.Balanced.{
  Extracts, nil, char, nest, Balanced, extract_balanced-Extracts, extract_balanced-panics,
}
use wasm_shell.Bash.Fill.{parse, parse_source}
use wasm_shell.Bash.Fill.Fuel.{parse-within_fuel}
use wasm_shell.Bash.Fill.Quoted.{quote_words, as_words, plain_command, parse_source-quote_words}

next_token-Lexes_example :
    Lexes (at 3 (codes " 2>&1 x")) (next_token false (at 3 (codes " 2>&1 x")))
next_token-Lexes_example = next_token-Lexes false (at 3 (codes " 2>&1 x"))

next_token-escape_dq_example :
    next_token true (at 1 (escape_dq (codes "a\"$b") ++ b'"' ∷ codes " c"))
    ≡ ok (
      record {
        kind = dq_text (codes "a\"$b");
        span = new_span 1 (byte_len (escape_dq (codes "a\"$b")));
      },
      at (1 + byte_len (escape_dq (codes "a\"$b"))) (b'"' ∷ codes " c"),
    )
next_token-escape_dq_example = next_token-escape_dq 1 b'a' (codes "\"$b") (codes " c")

abbrev eof_operator : Pending
eof_operator = record { delimiter = codes "E"; quoted = true; strip_tabs = true }

abbrev eof_heredoc : Written
eof_heredoc = record {
  operator = eof_operator;
  lines = codes "\ta" ∷ codes "b c" ∷ [];
  last = codes "\tE";
}

collect_heredoc_bodies-written_example :
    collect_heredoc_bodies
      (map (λ w. w.operator) (eof_heredoc ∷ []))
      (at 8 (written (eof_heredoc ∷ []) (codes "ls")))
    ≡ ok (
      map (λ w. with_ends w.lines) (eof_heredoc ∷ []),
      at (8 + written_len (eof_heredoc ∷ [])) (codes "ls"),
    )
unfolding contains_char stripped trim_start_matches
collect_heredoc_bodies-written_example =
    collect_heredoc_bodies-written (eof_heredoc ∷ []) (codes "ls") 8 (
      (
        (
          (Lacks-of_test _ (codes "\ta") refl, λ p. ground (arith, p)),
          ((Lacks-of_test _ (codes "b c") refl, λ p. ground (arith, p)), tt),
        ),
        (Lacks-of_test _ (codes "\tE") refl, refl),
      ),
      tt,
    )

-- a(b)c
extracts : Extracts (codes "a(b)c")
unfolding len_utf8
extracts = char refl refl (nest (Balanced.char refl Balanced.nil) (char refl refl nil))

extract_balanced-Extracts_example :
    extract_balanced (codes "a(b)c" ++ b')' ∷ codes " d") b'(' b')' 2 (b')' ∷ [])
    ≡ ok (codes "a(b)c", byte_len (codes "a(b)c") + 1)
extract_balanced-Extracts_example = extract_balanced-Extracts 2 extracts (codes " d")

extract_balanced-panics_example :
    extract_balanced (codes "a(b)c" ++ 233 ∷ codes ")") b'(' b')' 2 (b')' ∷ []) ≡ err panic
unfolding len_utf8
extract_balanced-panics_example =
    extract_balanced-panics 2 233 extracts (codes ")") (λ p. ground (arith, p))

parse_source-quote_words_example :
    parse_source (quote_words (codes "echo" ∷ codes "a $b" ∷ []))
    ≡ ok (
        next_command
          (simple (plain_command (single_quoted (codes "echo")) (as_words (codes "a $b" ∷ []))))
          no_commands)
unfolding contains_char
parse_source-quote_words_example =
    parse_source-quote_words (codes "echo") (codes "a $b" ∷ [])
      (Lacks-of_test _ (codes "echo") refl, (Lacks-of_test _ (codes "a $b") refl, tt))

parse-within_fuel_example :
    (parse 7 (codes "ls") (record { bodies = []; borrowed = false })).0 ≢ err no_fuel
parse-within_fuel_example = parse-within_fuel 7 (codes "ls") (omega arith)
