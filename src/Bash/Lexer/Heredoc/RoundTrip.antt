-- ===== src/Bash/Lexer/Heredoc/RoundTrip.antt =====
-- The body of a heredoc is the lines in front of its delimiter.
use wasm_shell.Base.{
  ℕ, zero, suc, ◌+◌, ◌≤◌, ◌<◌, false, List, [], ◌∷◌, ◌++◌, Str, length, length-append, map,
  if◌then◌else◌, ok, ◌≡◌, refl, arith, ap, ap₂, ◌∙◌, All, ◌≢◌, Lacks, append_assoc, append-nil,
  str_eq, str_eq-true, str_eq-false,
}
use wasm_shell.Base.Utf8.{len_utf8, byte_len, byte_len-append}
use wasm_shell.Bash.Lexer.Scan.{at, eat}
use wasm_shell.Bash.Lexer.Next.{not_char}
use wasm_shell.Bash.Lexer.Next.RoundTrip.{skip_while-append, slice-between, Lacks-not_char}
use wasm_shell.Bash.Lexer.Heredoc.{
  Pending, stripped, is_empty, missing_delimiter, body_lines, collect_heredoc_bodies,
}

-- Lines, each with its end.
abbrev pub with_ends : List Str → Str
with_ends [] = []
with_ends (l ∷ ls) = l ++ b'\n' ∷ with_ends ls

-- A line that does not end the heredoc.
abbrev pub GoesOn : Pending → Str → Type 0
GoesOn h l = Lacks b'\n' l × (stripped h.strip_tabs l ≢ h.delimiter)

-- The line that ends it.
abbrev pub Ends : Pending → Str → Type 0
Ends h l = Lacks b'\n' l × (stripped h.strip_tabs l ≡ h.delimiter)

module _ (fuel : ℕ) (h : Pending) (start : ℕ) (body : Str) (pos : ℕ) (l s : Str) where
  body_lines-line :
      Lacks b'\n' l
      → body_lines (suc fuel) h start body (at pos (l ++ b'\n' ∷ s)) ≡ (
          if str_eq (stripped h.strip_tabs l) h.delimiter
          then ok (body, at (pos + byte_len l + 1) s)
          else if is_empty s
          then missing_delimiter start h.delimiter (at (pos + byte_len l + 1) s)
          else body_lines fuel h start (body ++ (l ++ b'\n' ∷ [])) (at (pos + byte_len l + 1) s))
  unfolding body_lines eat len_utf8
  body_lines-line k =
      let e = skip_while-append (not_char b'\n') l b'\n' s pos (Lacks-not_char b'\n' l k) refl in
      rw (e, slice-between pos (pos + byte_len l) l (b'\n' ∷ s) refl) refl

  body_lines-Ends :
      Ends h l
      → body_lines (suc fuel) h start body (at pos (l ++ b'\n' ∷ s))
        ≡ ok (body, at (pos + byte_len l + 1) s)
  body_lines-Ends (k, e) =
      body_lines-line k ∙ rw (str_eq-true (stripped h.strip_tabs l) h.delimiter e) refl

  body_lines-GoesOn :
      GoesOn h l
      → is_empty s ≡ false
      → body_lines (suc fuel) h start body (at pos (l ++ b'\n' ∷ s))
        ≡ body_lines fuel h start (body ++ (l ++ b'\n' ∷ [])) (at (pos + byte_len l + 1) s)
  body_lines-GoesOn (k, n) e =
      body_lines-line k ∙ rw (str_eq-false (stripped h.strip_tabs l) h.delimiter n, e) refl

is_empty-append : (s t u : Str) (c : ℕ) → is_empty (s ++ (t ++ c ∷ u)) ≡ false
unfolding is_empty
is_empty-append [] [] u c = refl
is_empty-append [] (x ∷ t) u c = refl
is_empty-append (x ∷ s) t u c = refl

line_len :
    (pos : ℕ) (l s : Str) (n : ℕ)
    → pos + byte_len l + 1 + byte_len s + n + 1 ≡ pos + byte_len (l ++ b'\n' ∷ s) + n + 1
unfolding byte_len len_utf8
line_len pos l s n = omega (arith, byte_len-append l (b'\n' ∷ s))

body_lines-with_ends :
    (h : Pending) (start : ℕ) (last r : Str) (ls : List Str) (body : Str) (pos fuel : ℕ)
    → All (GoesOn h) ls
    → Ends h last
    → length ls < fuel
    → body_lines fuel h start body (at pos (with_ends ls ++ (last ++ b'\n' ∷ r)))
      ≡ ok (body ++ with_ends ls, at (pos + byte_len (with_ends ls) + byte_len last + 1) r)
body_lines-with_ends h start last r ls body pos zero a e k = absurd (omega arith)
body_lines-with_ends h start last r [] body pos (suc fuel) a e k =
    unfold byte_len in
    (body_lines-Ends fuel h start body pos last r e
      ∙ rw append-nil (ap (λ n. ok (body, at n r)) (omega arith)))
body_lines-with_ends h start last r (l ∷ ls) body pos (suc fuel) (g, a) e k =
    let s = with_ends ls ++ (last ++ b'\n' ∷ r) in
    ap (λ t. body_lines (suc fuel) h start body (at pos t))
      (append_assoc l (b'\n' ∷ with_ends ls) (last ++ b'\n' ∷ r))
    ∙ body_lines-GoesOn fuel h start body pos l s g (is_empty-append (with_ends ls) last r b'\n')
    ∙ body_lines-with_ends h start last r ls (body ++ (l ++ b'\n' ∷ [])) (pos + byte_len l + 1) fuel
        a e (omega arith)
    ∙ ap₂ (λ b n. ok (b, at n r))
        (append_assoc body (l ++ b'\n' ∷ []) (with_ends ls)
          ∙ ap (λ u. body ++ u) (append_assoc l (b'\n' ∷ []) (with_ends ls)))
        (line_len pos l (with_ends ls) (byte_len last))

length-with_ends : (ls : List Str) → length ls ≤ length (with_ends ls)
length-with_ends [] = omega arith
length-with_ends (l ∷ ls) =
    omega (arith, length-append l (b'\n' ∷ with_ends ls), length-with_ends ls)

-- A heredoc as it is written: what the operator says, the lines of the body, and the line that ends it.
pub record Written : Type 0 where
  pub operator : Pending
  pub lines : List Str
  pub last : Str

-- The heredocs one behind the other, in front of `r`.
abbrev pub written : List Written → Str → Str
written [] r = r
written (w ∷ ws) r = with_ends w.lines ++ (w.last ++ b'\n' ∷ written ws r)

abbrev pub written_len : List Written → ℕ
written_len [] = 0
written_len (w ∷ ws) = byte_len (with_ends w.lines) + byte_len w.last + 1 + written_len ws

abbrev pub WellWritten : Written → Type 0
WellWritten w = All (GoesOn w.operator) w.lines × Ends w.operator w.last

-- Of any number of heredocs written one behind the other, each with lines that are not its delimiter and a
-- last line that is, in front of any text, the lexer collects the lines of each as its body, in order, and
-- stands at the text behind. With `<<-` a line is compared without its leading tabs, but the body keeps them.
pub collect_heredoc_bodies-written :
    (ws : List Written) (r : Str) (pos : ℕ)
    → All WellWritten ws
    → collect_heredoc_bodies (map (λ w. w.operator) ws) (at pos (written ws r))
      ≡ ok (map (λ w. with_ends w.lines) ws, at (pos + written_len ws) r)
unfolding collect_heredoc_bodies
collect_heredoc_bodies-written [] r pos a = ap (λ n. ok ([], at n r)) (omega arith)
collect_heredoc_bodies-written (w ∷ ws) r pos ((g, e), a) =
    let s = w.last ++ b'\n' ∷ written ws r in
    let k : length w.lines < suc (length (with_ends w.lines ++ s)) =
      omega (arith, length-append (with_ends w.lines) s, length-with_ends w.lines) in
    rw
      (
        body_lines-with_ends w.operator pos w.last (written ws r) w.lines [] pos
            (suc (length (with_ends w.lines ++ s))) g e k,
        collect_heredoc_bodies-written ws r
            (pos + byte_len (with_ends w.lines) + byte_len w.last + 1) a,
      )
      (ap (λ n. ok (with_ends w.lines ∷ map (λ v. with_ends v.lines) ws, at n r)) (omega arith))
