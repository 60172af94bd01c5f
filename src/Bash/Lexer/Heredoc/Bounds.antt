-- ===== src/Bash/Lexer/Heredoc/Bounds.antt =====
-- The bodies of heredocs come from the text, and their loop has fuel enough.
use wasm_shell.Base.{
  ℕ, zero, suc, ◌+◌, ◌≤◌, ◌<◌, Bool, false, List, [], ◌∷◌, ◌++◌, Str, length, length-append,
  if◌then◌else◌, Result, ok, err, ◌>>=◌, ◌≡◌, ap, arith, All, Bool-cases, inl, inr, str_eq,
}
use wasm_shell.Bash.Error.{ParseError}
use wasm_shell.Bash.Action.Fuel.{Yields}
use wasm_shell.Bash.Lexer.Scan.{
  Lexer, at, eat, skip_while, slice, skip_while-Reaches, slice-Reaches,
}
use wasm_shell.Bash.Lexer.Next.{not_char}
use wasm_shell.Bash.Lexer.Heredoc.{Pending, stripped, is_empty, body_lines, collect_heredoc_bodies}
use wasm_shell.Bash.Lexer.Next.Bounds.{NextIs, skip_comment-NextIs}

abbrev taken : Bool → Str
taken b = if b then b'\n' ∷ [] else []

eat-length :
    (pos : ℕ) (s : Str)
    → length (taken (eat b'\n' pos s).0) + length (eat b'\n' pos s).1.rest ≡ length s
unfolding eat
eat-length pos [] = omega arith
eat-length pos (c ∷ s) = ground arith

-- Behind the line there is less text, or none.
eat-shorter :
    (pos : ℕ) (s : Str)
    → NextIs b'\n' s
    → is_empty (eat b'\n' pos s).1.rest ≡ false
    → length (eat b'\n' pos s).1.rest < length s
unfolding eat is_empty
eat-shorter pos [] n h = cc
eat-shorter pos (c ∷ s) n h = ground arith

line-length :
    (pos : ℕ) (s : Str)
    → let e = skip_while (not_char b'\n') pos s in
      length (slice (at pos s) e) + length e.rest ≡ length s
line-length pos s =
    let r = skip_while-Reaches (not_char b'\n') s pos in
    let e = skip_while (not_char b'\n') pos s in
    omega (arith, ap length (slice-Reaches r), ap length r.splits, length-append r.text e.rest)

-- The body and what is left come out of the text and what is there of the body.
abbrev Collects : ℕ → Result ParseError (Str × Lexer) → Type 0
Collects n r = Yields (λ (body, l). length body + length l.rest ≤ n) r

Collects-mono :
    (m n : ℕ) (r : Result ParseError (Str × Lexer)) → m ≤ n → Collects m r → Collects n r
Collects-mono m n (ok (b, l)) h c = omega arith
Collects-mono m n (err e) h c = c

body_lines-Collects :
    (h : Pending) (start fuel : ℕ) (body : Str) (l : Lexer)
    → length l.rest < fuel
    → Collects (length body + length l.rest) (body_lines fuel h start body l)
unfolding body_lines
body_lines-Collects h start zero body l k = absurd (omega arith)
body_lines-Collects h start (suc fuel) body l k =
    let e = skip_while (not_char b'\n') l.pos l.rest in
    let line = slice l e in
    let nl = eat b'\n' e.pos e.rest in
    let grown = body ++ (line ++ taken nl.0) in
    let a = length-append body (line ++ taken nl.0) in
    let b = length-append line (taken nl.0) in
    let c = eat-length e.pos e.rest in
    let d = line-length l.pos l.rest in
    let here : length body + length nl.1.rest ≤ length body + length l.rest = omega arith in
    elim (Bool-cases (str_eq (stripped h.strip_tabs line) h.delimiter)) [
      | inl y ↦ rw y here
      | inr n ↦ rw n (elim (Bool-cases (is_empty nl.1.rest)) [
        | inl z ↦ rw z tt
        | inr m ↦
            let less = eat-shorter e.pos e.rest (skip_comment-NextIs l.pos l.rest) m in
            rw m (
              Collects-mono _ _ (body_lines fuel h start grown nl.1) (omega arith)
                (body_lines-Collects h start fuel grown nl.1 (omega arith)))
      ])
    ]

-- All the bodies are no longer than `n`, and no more is left than there was.
abbrev pub Collected : ℕ → Lexer → Result ParseError (List Str × Lexer) → Type 0
Collected n l r =
    Yields (λ (bodies, k). All (λ b. length b ≤ n) bodies × (length k.rest ≤ length l.rest)) r

Collected-cons :
    (n : ℕ) (l : Lexer) (h : Pending) (hs : List Pending) (r : Result ParseError (Str × Lexer))
    → length l.rest ≤ n
    → Collects (length l.rest) r
    → ((k : Lexer) → length k.rest ≤ n → Collected n k (collect_heredoc_bodies hs k))
    → Collected n l (
        r >>= λ (body, after).
        collect_heredoc_bodies hs after >>= λ (bodies, last). ok (body ∷ bodies, last))
Collected-cons n l h hs (ok (body, after)) k c m =
    joined (collect_heredoc_bodies hs after) (m after (omega arith))
  where
    joined :
        (r : Result ParseError (List Str × Lexer))
        → Collected n after r
        → Collected n l (r >>= λ (bodies, last). ok (body ∷ bodies, last))
    joined (ok (bodies, last)) (a, b) = ((omega arith, a), omega arith)
    joined (err e) f = f
Collected-cons n l h hs (err e) k c m = c

-- Bodies.
pub collect_heredoc_bodies-Collected :
    (n : ℕ) (hs : List Pending) (l : Lexer)
    → length l.rest ≤ n
    → Collected n l (collect_heredoc_bodies hs l)
unfolding collect_heredoc_bodies
collect_heredoc_bodies-Collected n [] l k = (tt, omega arith)
collect_heredoc_bodies-Collected n (h ∷ hs) l k =
    Collected-cons n l h hs (body_lines (suc (length l.rest)) h l.pos [] l) k
      (Collects-mono (0 + length l.rest) (length l.rest)
        (body_lines (suc (length l.rest)) h l.pos [] l) (omega arith)
        (body_lines-Collects h l.pos (suc (length l.rest)) [] l (omega arith)))
      (λ m j. collect_heredoc_bodies-Collected n hs m j)
