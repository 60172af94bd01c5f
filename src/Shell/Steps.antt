-- ===== src/Shell/Steps.antt =====
-- The steps of execution that do not run commands themselves: parts of crates/wasm_shell/src/expand.rs and exec.rs.
use wasm_shell.Base.{
  ℕ, Bool, true, false, ◌&&◌, ◌||◌, Option, none, some, List, [], ◌∷◌, ◌++◌, Str, codes,
  starts_with, drop, trim_end_matches, str_eq, Result, ok, err, if◌then◌else◌, ◌==◌,
}
use wasm_shell.Base.Map.{Map, lookup}
use wasm_shell.Base.Int.{ℤ, is_zero, show_ℤ}
use wasm_shell.Base.Utf8.{from_utf8_lossy}
use wasm_shell.Vfs.Ops
use wasm_shell.Shell.Arith.{ArithError, message, eval_arith}
use wasm_shell.Shell.Arith
use wasm_shell.Bash.Ast.{
  SpecialVar, zero_var, star_var, at_var, hash_var, pid_var, last_exit_var, last_bg_pid_var,
  positional, RedirectKind, append, read, read_write, Stages, no_stages, next_stage,
}
use wasm_shell.Shell.State.{
  ExitCode, success, failure, ShellError, io, panic, new_reader, empty_reader, Writer, Io, Shell,
  Exec, ◌>>=◌, ◌>>◌, return, lift, attempt, get_env, set_env, unset_env, new_writer, bytes_of,
  with_fs, or_fail,
}

-- `dispatch`: the name, the arguments with the name in front, the I/O bundle.
abbrev pub Dispatch : Type 0 → Type 0
Dispatch W = Str → List Str → Io → Exec W ExitCode

-- `DeferredWrite`
pub record DeferredWrite : Type 0 where
  pub path : Str
  pub buf : Writer
  pub append_it : Bool

unfoldable pub of_arith_error : ArithError → ShellError
of_arith_error (message m) = io (codes "arithmetic: " ++ m)
of_arith_error Arith.panic = panic
of_arith_error Arith.no_fuel = ShellError.no_fuel

arith_text : Result ArithError ℤ → Result ShellError Str
unfolding of_arith_error
arith_text (ok v) = ok (show_ℤ v)
arith_text (err e) = err (of_arith_error e)

-- `split_ascii_whitespace`
is_ascii_whitespace : ℕ → Bool
is_ascii_whitespace c = c == b' ' || c == 9 || c == 10 || c == 12 || c == 13

add_word : Str → List Str → List Str
add_word [] words = words
add_word (c ∷ s) words = (c ∷ s) ∷ words

-- The word that is open, and the ones behind it.
words_from : (ℕ → Bool) → Str → Str × List Str
words_from white [] = ([], [])
words_from white (c ∷ s) =
    let r = words_from white s in if white c then ([], add_word r.0 r.1) else (c ∷ r.0, r.1)

unfoldable pub split_words : (ℕ → Bool) → Str → List Str
unfolding words_from add_word
split_words white s = let r = words_from white s in add_word r.0 r.1

-- The alias's first word, and the others, or the name itself.
unfoldable pub expand_alias : Map Str → Str → Str × List Str
unfolding split_words is_ascii_whitespace
expand_alias aliases raw_name = elim (lookup raw_name aliases) [
  | none ↦ (raw_name, [])
  | some value ↦ elim (split_words is_ascii_whitespace value) [
    | [] ↦ (raw_name, [])
    | part ∷ parts ↦ (part, parts)
  ]
]

unfoldable pub is_unset : Option Str → Bool
is_unset none = true
is_unset (some []) = true
is_unset (some (c ∷ s)) = false

unfoldable pub or_empty : Option Str → Str
or_empty none = []
or_empty (some s) = s

default_fd : RedirectKind → ℕ
default_fd read = 0
default_fd kind = 1

unfoldable pub fd_of : Option ℕ → RedirectKind → ℕ
unfolding default_fd
fd_of (some fd) kind = fd
fd_of none kind = default_fd kind

-- The bundle with the buffer in place of the descriptor's.
unfoldable pub redirect_output : Io → ℕ → Writer → Io
redirect_output i fd buf =
    if fd == 1 then record i { stdout = buf } else if fd == 2 then record i { stderr = buf } else i

unfoldable pub duplicate_fd : Io → ℕ → ℕ → Io
duplicate_fd i fd target =
    if (fd == 2) && (target == 1)
    then record i { stderr = i.stdout }
    else if (fd == 1) && (target == 2)
    then record i { stdout = i.stderr }
    else i

unfoldable pub negated_code : Bool → ExitCode → ExitCode
negated_code false code = code
negated_code true code = if is_zero code then failure else success

-- The text of a command's output, without the line ends at its end.
unfoldable pub captured_text : List ℕ → Str
captured_text bytes = trim_end_matches 10 (from_utf8_lossy bytes)

-- What `ErrorIfUnset` says.
unfoldable pub unset_message : Str → Str → Str
unset_message x [] = x ++ codes ": parameter null or not set"
unset_message x (c ∷ s) = x ++ codes ": " ++ c ∷ s

unfoldable pub no_more : Stages → Bool
no_more no_stages = true
no_more (next_stage s rest) = false

abbrev pub Saved : Type 0
Saved = List (Str × Option Str)

module _ {W : Type 0} where
  -- `expand_special`
  unfoldable pub expand_special : SpecialVar → Shell W → Str
  expand_special zero_var sh = codes "wasm_shell"
  expand_special (positional n) sh = []
  expand_special star_var sh = []
  expand_special at_var sh = []
  expand_special hash_var sh = codes "0"
  expand_special pid_var sh = codes "1"
  expand_special last_exit_var sh = show_ℤ sh.last_exit
  expand_special last_bg_pid_var sh = codes "0"

  -- Tilde expansion.
  unfoldable pub expand_literal : Str → Exec W Str
  expand_literal s =
      if str_eq s (codes "~") || starts_with s (codes "~/")
      then (get_env (codes "HOME") >>= λ home.
          return (elim home [ none ↦ codes "/" | some h ↦ h ] ++ drop 1 s))
      else return s

  unfoldable pub expand_arith : Str → Exec W Str
  unfolding arith_text
  expand_arith expr = λ sh. (sh, arith_text (eval_arith expr sh.shared.env))

  -- `exec_capture`, given the script as it runs with a bundle.
  unfoldable pub exec_capture : (Io → Exec W ExitCode) → Exec W (List ℕ)
  exec_capture run = new_writer >>= λ out. new_writer >>= λ discarded.
      run (record { stdin = empty_reader; stdout = out; stderr = discarded }) >>= λ code.
      bytes_of out

  unfoldable pub restore : Saved → Exec W (Unit {0})
  restore [] = return tt
  restore ((x, some old) ∷ saved) = set_env x old >> restore saved
  restore ((x, none) ∷ saved) = unset_env x >> restore saved

  -- The bytes for the file: behind those that it has, if they can be read, when they are appended.
  unfoldable pub deferred_data : DeferredWrite → Exec W (List ℕ)
  deferred_data dw = bytes_of dw.buf >>= λ bytes.
      if dw.append_it
      then (with_fs (λ v. Ops.read_file v dw.path) >>= λ existing.
          return (elim existing [ ok old ↦ old ++ bytes | err e ↦ bytes ]))
      else return bytes

  unfoldable pub flush : List DeferredWrite → Exec W (Unit {0})
  unfolding deferred_data
  flush [] = return tt
  flush (dw ∷ deferred) = deferred_data dw >>= λ bytes.
      with_fs (λ v. Ops.write_file v dw.path bytes) >>= or_fail >> flush deferred

  -- A redirection to or from a path.
  unfoldable pub redirect_path :
      RedirectKind → ℕ → Str → Io → List DeferredWrite → Exec W (Io × List DeferredWrite)
  unfolding redirect_output
  redirect_path read fd path i deferred =
      with_fs (λ v. Ops.read_file v path) >>= or_fail >>= λ bytes.
      return (record i { stdin = new_reader bytes }, deferred)
  redirect_path read_write fd path i deferred = new_writer >>= λ buf. return (
    record i { stdout = buf; stderr = buf },
    deferred ++ record { path = path; buf = buf; append_it = false } ∷ [],
  )
  redirect_path append fd path i deferred = new_writer >>= λ buf. return (
    redirect_output i fd buf,
    deferred ++ record { path = path; buf = buf; append_it = true } ∷ [],
  )
  redirect_path kind fd path i deferred = new_writer >>= λ buf. return (
    redirect_output i fd buf,
    deferred ++ record { path = path; buf = buf; append_it = false } ∷ [],
  )

  -- What follows when the assignments are made, the words expanded and the redirections set up.
  unfoldable pub run_program :
      Dispatch W → Str → List Str → Saved → Io × List DeferredWrite → Exec W ExitCode
  unfolding flush restore
  run_program dispatch command args saved (i, deferred) =
      attempt (dispatch command args i) >>= λ code. flush deferred >> (restore saved >> lift code)
