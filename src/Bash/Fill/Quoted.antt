-- ===== src/Bash/Fill/Quoted.antt =====
-- A command line of quoted words is parsed into these words.
use wasm_shell.Base.{
  ℕ, zero, suc, ◌+◌, ◌*◌, ◌≤◌, ◌<◌, false, Option, none, some, List, [], ◌∷◌, ◌++◌, Str, length,
  length-append, ok, ◌≡◌, refl, arith, ap, sym, ◌∙◌, All, Lacks,
}
use wasm_shell.Base.Utf8.{byte_len, len_utf8}
use wasm_shell.Bash.Error.{new_span, eof_span, Span}
use wasm_shell.Bash.Ast.{
  Script, no_commands, next_command, Command, simple, SimpleCommand, simple_command, name,
  no_assignments, Word, Words, no_words, next_word, single_quoted, no_redirects,
}
use wasm_shell.Bash.Lexer.Token.{single_quote, eof, Token}
use wasm_shell.Bash.Lexer.Scan.{Lexer, at, new_lexer, skip_while}
use wasm_shell.Bash.Lexer.Redirect.{is_inline_space, skip_inline}
use wasm_shell.Bash.Lexer.Next.{plain_token, token_from, next_token}
use wasm_shell.Bash.Lexer.Next.RoundTrip.{next_token-single_quote}
use wasm_shell.Bash.Action.{◌>>◌}
use wasm_shell.Bash.Words.{Queue, Run}
use wasm_shell.Bash.WordParts.{simplify_word_parts}
use wasm_shell.Bash.Parser.{
  Parser, new_parser, Parse, peek, next, skip_newlines, is_newline, parse_word,
}
use wasm_shell.Bash.Parser.Simple.{
  simple_loop, case_of, push_word, add_word, empty_command, parse_simple_command,
}
use wasm_shell.Bash.Parser.Grammar.{
  parse_script, script_loop, parse_list_item, parse_pipeline_cmd, parse_pipeline, parse_command,
  and_or_loop, skip_list_separator, ends_script, is_bang, is_pipe, is_amp, is_semi, single_stage,
}
use wasm_shell.Bash.Fill.{
  parse, parse_source, rounds_of, depth_of, finish_parse, fill_heredoc_bodies, fill_script,
  fill_simple,
}

-- Each word in quotes, with a space in front.
abbrev pub quote_words : List Str → Str
quote_words [] = []
quote_words (a ∷ args) = b' ' ∷ (b'\'' ∷ (a ++ b'\'' ∷ quote_words args))

abbrev pub as_words : List Str → Words
as_words [] = no_words
as_words (a ∷ args) = next_word (single_quoted a) (as_words args)

next_token-space :
    (pos : ℕ) (s : Str) → next_token false (at pos (b' ' ∷ s)) ≡ next_token false (at (pos + 1) s)
unfolding next_token plain_token skip_inline skip_while is_inline_space len_utf8
next_token-space pos s = refl

-- The parser outside double quotes, with no heredoc on the line.
state : Queue → Option Token → Lexer → Parser
state q peeked l = record {
  lexer = l;
  peeked = peeked;
  in_dq = false;
  pending_heredocs = [];
  queue = q;
}

module _ (parse : Str → Run Script) (fuel : ℕ) (q : Queue) where
  simple_loop-peek :
      (n : ℕ) (sc : SimpleCommand) (l l' : Lexer) (t : Token)
      → next_token false l ≡ ok (t, l')
      → simple_loop parse fuel (suc n) sc (state q none l)
        ≡ simple_loop parse fuel (suc n) sc (state q (some t) l')
  unfolding simple_loop peek state
  simple_loop-peek n sc l l' t e = rw e refl

  simple_loop-word :
      (n : ℕ) (sc : SimpleCommand) (l : Lexer) (a : Str) (s : Span)
      → simple_loop parse fuel
          (suc n)
          sc
          (state q (some (record { kind = single_quote a; span = s })) l)
        ≡ simple_loop parse fuel n (push_word (single_quoted a) sc) (state q none l)
  unfolding simple_loop peek next parse_word simplify_word_parts case_of state
  simple_loop-word n sc l a s = refl

abbrev append_words : Words → Words → Words
append_words no_words vs = vs
append_words (next_word w ws) vs = next_word w (append_words ws vs)

append_words-add_word :
    (w : Word) (ws vs : Words) → append_words (add_word w ws) vs ≡ append_words ws (next_word w vs)
unfolding add_word
append_words-add_word w no_words vs = refl
append_words-add_word w (next_word v ws) vs =
    ap (λ u. next_word v u) (append_words-add_word w ws vs)

append_words-nil : (ws : Words) → append_words ws no_words ≡ ws
append_words-nil no_words = refl
append_words-nil (next_word w ws) = ap (λ u. next_word w u) (append_words-nil ws)

-- A command without assignments and redirections.
abbrev pub plain_command : Word → Words → SimpleCommand
plain_command w ws = simple_command no_assignments (name w) ws no_redirects

push_word-plain :
    (v w : Word) (ws : Words) → push_word v (plain_command w ws) ≡ plain_command w (add_word v ws)
unfolding push_word
push_word-plain v w ws = refl

push_word-empty : (w : Word) → push_word w empty_command ≡ plain_command w no_words
unfolding push_word
push_word-empty w = refl

abbrev end_token : ℕ → Token
end_token pos = record { kind = eof; span = eof_span pos }

-- The place behind quoted words that start at `pos`.
abbrev quoted_end : ℕ → List Str → ℕ
quoted_end pos [] = pos
quoted_end pos (a ∷ args) = quoted_end (pos + 1 + (byte_len a + 2)) args

-- A word is taken when the lexer stands at it.
next_token-quoted :
    (pos : ℕ) (a : Str) (args : List Str)
    → Lacks b'\'' a
    → next_token false (at pos (quote_words (a ∷ args)))
      ≡ ok (
        record { kind = single_quote a; span = new_span (pos + 1) (byte_len a + 2) },
        at (pos + 1 + (byte_len a + 2)) (quote_words args),
      )
next_token-quoted pos a args h =
    next_token-space pos (b'\'' ∷ (a ++ b'\'' ∷ quote_words args))
    ∙ next_token-single_quote (pos + 1) a (quote_words args) h

next_token-end : (pos : ℕ) → next_token false (at pos []) ≡ ok (end_token pos, at pos [])
unfolding next_token plain_token token_from skip_inline skip_while
next_token-end pos = refl

module _ (parse : Str → Run Script) (fuel : ℕ) (q : Queue) where
  simple_loop-end :
      (n : ℕ) (sc : SimpleCommand) (pos : ℕ)
      → simple_loop parse fuel (suc n) sc (state q none (at pos []))
        ≡ (ok sc, state q (some (end_token pos)) (at pos []))
  unfolding simple_loop peek state case_of
  simple_loop-end n sc pos = rw (next_token-end pos) refl

  simple_loop-quoted :
      (args : List Str) (n : ℕ) (w : Word) (ws : Words) (pos : ℕ)
      → All (Lacks b'\'') args
      → length args < n
      → simple_loop parse fuel n (plain_command w ws) (state q none (at pos (quote_words args))) ≡ (
        ok (plain_command w (append_words ws (as_words args))),
        state q (some (end_token (quoted_end pos args))) (at (quoted_end pos args) []),
      )
  simple_loop-quoted args zero w ws pos h k = absurd (omega arith)
  simple_loop-quoted [] (suc n) w ws pos h k =
      simple_loop-end n (plain_command w ws) pos
      ∙ ap (λ u. (ok (plain_command w u), state q (some (end_token pos)) (at pos [])))
          (sym (append_words-nil ws))
  simple_loop-quoted (a ∷ args) (suc n) w ws pos (h, hs) k =
      let l = at (pos + 1 + (byte_len a + 2)) (quote_words args) in
      let end = quoted_end (pos + 1 + (byte_len a + 2)) args in
      simple_loop-peek parse fuel q n (plain_command w ws) (at pos (quote_words (a ∷ args))) l _
        (next_token-quoted pos a args h)
      ∙ simple_loop-word parse fuel q n (plain_command w ws) l a
          (new_span (pos + 1) (byte_len a + 2))
      ∙ ap (λ c. simple_loop parse fuel n c (state q none l))
          (push_word-plain (single_quoted a) w ws)
      ∙ simple_loop-quoted args n w (add_word (single_quoted a) ws) (pos + 1 + (byte_len a + 2)) hs
          (omega arith)
      ∙ ap (λ u. (ok (plain_command w u), state q (some (end_token end)) (at end [])))
          (append_words-add_word (single_quoted a) ws (as_words args))

  -- The command of a line that starts with a quoted word.
  simple_command-quoted :
      (a : Str) (args : List Str) (n pos : ℕ) (s : Span)
      → All (Lacks b'\'') args
      → length args < n
      → simple_loop parse fuel
          (suc n)
          empty_command
          (state q (some (record { kind = single_quote a; span = s })) (at pos (quote_words args)))
        ≡ (
          ok (plain_command (single_quoted a) (as_words args)),
          state q (some (end_token (quoted_end pos args))) (at (quoted_end pos args) []),
        )
  simple_command-quoted a args n pos s h k =
      simple_loop-word parse fuel q n empty_command (at pos (quote_words args)) a s
      ∙ ap (λ c. simple_loop parse fuel n c (state q none (at pos (quote_words args))))
          (push_word-empty (single_quoted a))
      ∙ simple_loop-quoted args n (single_quoted a) no_words pos h k

module _ (parse : Str → Run Script) (q : Queue) (a : Str) (args : List Str)
    (h : All (Lacks b'\'') args) where
  abbrev quoted_start : ℕ → Span → Parser
  quoted_start pos s =
      state q (some (record { kind = single_quote a; span = s })) (at pos (quote_words args))

  abbrev quoted_stop : ℕ → Parser
  quoted_stop pos = let k = quoted_end pos args in state q (some (end_token k)) (at k [])

  abbrev quoted_command : Command
  quoted_command = simple (plain_command (single_quoted a) (as_words args))

  parse_simple_command-quoted :
      (n pos : ℕ) (s : Span)
      → length args < n
      → parse_simple_command parse (suc n) (quoted_start pos s)
        ≡ (ok quoted_command, quoted_stop pos)
  unfolding parse_simple_command
  parse_simple_command-quoted n pos s k =
      rw (simple_command-quoted parse (suc n) q a args n pos s h k) refl

  parse_list_item-quoted :
      (inner : Parse Script) (n pos : ℕ) (s : Span)
      → length args < n
      → parse_list_item parse (suc n) inner (quoted_start pos s)
        ≡ (ok quoted_command, quoted_stop pos)
  unfolding parse_list_item parse_pipeline_cmd parse_pipeline parse_command and_or_loop is_bang
      is_pipe is_amp single_stage peek state
  parse_list_item-quoted inner n pos s k = rw (parse_simple_command-quoted n pos s k) refl

  script_loop-quoted :
      (n m pos : ℕ) (s : Span)
      → length args < n
      → script_loop parse (suc n) (suc (suc m)) (quoted_start pos s)
        ≡ (ok (next_command quoted_command no_commands), quoted_stop pos)
  unfolding script_loop ends_script skip_list_separator is_semi skip_newlines is_newline peek state
  script_loop-quoted n m pos s k =
      rw
        (parse_list_item-quoted (skip_newlines (suc n) false >> script_loop parse (suc n) (suc m)) n
          pos s k)
        refl

  parse_script-quoted :
      (n m pos : ℕ)
      → Lacks b'\'' a
      → length args < n
      → parse_script parse (suc n) (suc (suc m)) (state q none (at pos (quote_words (a ∷ args))))
        ≡ (ok (next_command quoted_command no_commands), quoted_stop (pos + 1 + (byte_len a + 2)))
  unfolding parse_script skip_newlines is_newline peek state
  parse_script-quoted n m pos g k =
      rw (next_token-quoted pos a args g) (
        script_loop-quoted n m (pos + 1 + (byte_len a + 2)) (new_span (pos + 1) (byte_len a + 2)) k)

length-quote_words : (args : List Str) → length args ≤ length (quote_words args)
length-quote_words [] = omega arith
length-quote_words (a ∷ args) =
    omega (arith, length-append a (b'\'' ∷ quote_words args), length-quote_words args)

finish_parse-quoted :
    (p : Str → Run Script) (a : Str) (args : List Str) (q : Queue) (l : Lexer) (t : Token)
    → q.borrowed ≡ false
    → finish_parse p (
      ok (next_command (simple (plain_command (single_quoted a) (as_words args))) no_commands),
      state q (some t) l,
    )
      ≡ (
        ok (next_command (simple (plain_command (single_quoted a) (as_words args))) no_commands),
        record { bodies = []; borrowed = false },
      )
unfolding finish_parse fill_heredoc_bodies fill_script fill_simple state
finish_parse-quoted p a args q l t e = rw e refl

module _ (a : Str) (args : List Str) (g : Lacks b'\'' a) (h : All (Lacks b'\'') args) where
  -- With any fuel that is enough.
  parse-quote_words :
      (depth n m : ℕ) (q : Queue)
      → q.borrowed ≡ false
      → length args < n
      → finish_parse
          (λ t r. parse depth t r)
          (parse_script
            (λ t r. parse depth t r)
            (suc n)
            (suc (suc m))
            (new_parser (quote_words (a ∷ args)) q))
        ≡ (
          ok (next_command (quoted_command (λ t r. parse depth t r) q a args h) no_commands),
          record { bodies = []; borrowed = false },
        )
  unfolding new_parser new_lexer state
  parse-quote_words depth n m q e k =
      rw (parse_script-quoted (λ t r. parse depth t r) q a args h n m 0 g k)
        (finish_parse-quoted (λ t r. parse depth t r) a args q _ _ e)

-- `parse_source` with its fuel written out.
parse_source-eq :
    (src : Str)
    → let inner = λ (t : Str) (r : Queue). parse (2 * length src + 2) t r in
      let n = suc (suc (length src)) in
      parse_source src
      ≡ (finish_parse inner
          (parse_script inner n n (new_parser src (record { bodies = []; borrowed = false })))).0
unfolding parse_source parse
parse_source-eq src =
    let q : Queue = record { bodies = []; borrowed = false } in
    let inner = λ (t : Str) (r : Queue). parse (2 * length src + 2) t r in
    let d : depth_of src ≡ suc (2 * length src + 2) = omega arith in
    let n : rounds_of src ≡ suc (suc (length src)) = omega arith in
    ap (λ k. (parse k src q).0) d
    ∙ ap (λ k. (finish_parse inner (parse_script inner k k (new_parser src q))).0) n

-- Words in single quotes, each behind a space, with no quote in any, parse into the one simple command whose
-- name is the first word and whose arguments are the others, as they stand in the quotes.
pub parse_source-quote_words :
    (a : Str) (args : List Str)
    → All (Lacks b'\'') (a ∷ args)
    → parse_source (quote_words (a ∷ args))
      ≡ ok (next_command (simple (plain_command (single_quoted a) (as_words args))) no_commands)
parse_source-quote_words a args (g, h) =
    let src = quote_words (a ∷ args) in
    let k : length args < suc (length src) = omega (arith, length-quote_words (a ∷ args)) in
    parse_source-eq src
    ∙ ap (λ r. r.0)
        (parse-quote_words a args g h (2 * length src + 2) (suc (length src)) (length src)
          (record { bodies = []; borrowed = false }) refl k)
