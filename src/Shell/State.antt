-- ===== src/Shell/State.antt =====
-- The state of the shell and what programs see of it: crates/wasm_shell/src/shell.rs, io.rs, env.rs and error.rs.
-- The reference-counted buffers of the writers are a list, and a `VecWriter` is its place in the list, so that
-- clones share the buffer. The lock of the filesystem is free whenever it is asked for: nothing runs beside the
-- shell. `HashMap` and `EnvMap` are association lists.
use wasm_shell.Base.{
  ℕ, ◌+◌, ◌-◌, Option, none, some, List, [], ◌∷◌, ◌++◌, Str, codes, length, get_elem?, set, drop,
  Result, ok, err,
}
use wasm_shell.Base.Map.{Map, lookup, insert, remove}
use wasm_shell.Base.Int.{ℤ, pos}
use wasm_shell.Vfs.Path.{
  VfsError, not_found, not_a_dir, not_a_file, already_exists, permission_denied, is_a_dir,
  not_empty, invalid_path, mount, resolve_path,
}
use wasm_shell.Vfs.Path
use wasm_shell.Vfs.Ops.{Vfs}

-- An exit code is an `i32`.
abbrev pub ExitCode : Type 0
ExitCode = ℤ

abbrev pub success : ExitCode
success = pos 0

abbrev pub failure : ExitCode
failure = pos 1

-- `panic` is a panic of the program, `no_fuel` a run of the model that has used up its fuel.
pub data ShellError : Type 0 where
  vfs : VfsError → ShellError
  parse command_not_found io : Str → ShellError
  exit : ExitCode → ShellError
  panic no_fuel : ShellError

-- `Display` of a `VfsError`
unfoldable pub show_vfs_error : VfsError → Str
show_vfs_error (not_found p) = codes "not found: " ++ p
show_vfs_error (not_a_dir p) = codes "not a directory: " ++ p
show_vfs_error (not_a_file p) = codes "not a file: " ++ p
show_vfs_error (already_exists p) = codes "already exists: " ++ p
show_vfs_error (permission_denied p) = codes "permission denied: " ++ p
show_vfs_error (is_a_dir p) = codes "is a directory: " ++ p
show_vfs_error (not_empty p) = codes "directory not empty: " ++ p
show_vfs_error (invalid_path p) = codes "invalid path: " ++ p
show_vfs_error (mount p) = codes "mount error: " ++ p
show_vfs_error Path.panic = []

-- `BytesReader`: all the bytes, and the position.
pub record Reader : Type 0 where
  pub data_bytes : List ℕ
  pub position : ℕ

unfoldable pub new_reader : List ℕ → Reader
new_reader bytes = record { data_bytes = bytes; position = 0 }

unfoldable pub empty_reader : Reader
unfolding new_reader
empty_reader = new_reader []

-- What `read_to_end` gives.
unfoldable pub read_to_end : Reader → List ℕ
read_to_end r = drop r.position r.data_bytes

-- The reader after `read_to_end`.
unfoldable pub at_end : Reader → Reader
at_end r = record r { position = r.position + (length r.data_bytes - r.position) }

abbrev pub Writer : Type 0
Writer = ℕ

pub record Io : Type 0 where
  pub stdin : Reader
  pub stdout : Writer
  pub stderr : Writer

-- `CtxShared`
pub record Shared : Type 0 where
  pub env : Map Str
  pub cwd : Str
  pub aliases : Map Str

-- What the programs share with the shell by reference: the filesystem and the buffers.
pub record World (W : Type 0) : Type 0 where
  pub fs : Vfs W
  pub buffers : List (List ℕ)

-- A registered callback: it may change what it shares, and its result is the last thing it gives.
abbrev pub Program : Type 0 → Type 0
Program W = List Str → Io → Shared → World W → (Shared × World W) × Result ShellError ExitCode

pub record Shell (W : Type 0) : Type 0 where
  pub world : World W
  pub registry : Map (Program W)
  pub shared : Shared
  pub last_exit : ExitCode

-- `VecWriter::bytes`
unfoldable pub contents : Writer → List (List ℕ) → List ℕ
contents w buffers = elim (get_elem? buffers w) [ some bytes ↦ bytes | none ↦ [] ]

-- A failed `unwrap` in the filesystem is a panic.
unfoldable pub settle : {A : Type 0} → Result VfsError A → Result ShellError (Result VfsError A)
settle (err Path.panic) = err panic
settle r = ok r

-- An error of the program as a value; a panic stays one.
abbrev pub caught : {A : Type 0} → Result ShellError A → Result ShellError (Result ShellError A)
caught (err panic) = err panic
caught (err no_fuel) = err no_fuel
caught r = ok r

-- A computation that changes the shell and may fail.
abbrev pub Exec : Type 0 → Type 0 → Type 0
Exec W A = Shell W → Shell W × Result ShellError A

module _ {W : Type 0} where
  abbrev pub continue_with :
      {A B : Type 0}
      → Shell W × Result ShellError A
      → (A → Exec W B)
      → Shell W × Result ShellError B
  continue_with (sh, ok a) f = f a sh
  continue_with (sh, err e) f = (sh, err e)

  infixl 5 ◌>>=◌ ◌>>◌
  abbrev pub ◌>>=◌ : {A B : Type 0} → Exec W A → (A → Exec W B) → Exec W B
  m >>= f = λ sh. continue_with (m sh) f

  abbrev pub ◌>>◌ : {B : Type 0} → Exec W (Unit {0}) → Exec W B → Exec W B
  m >> k = m >>= λ _. k

  abbrev pub return : {A : Type 0} → A → Exec W A
  return a = λ sh. (sh, ok a)

  abbrev pub fail : {A : Type 0} → ShellError → Exec W A
  fail e = λ sh. (sh, err e)

  abbrev pub get : Exec W (Shell W)
  get = λ sh. (sh, ok sh)

  abbrev pub modify : (Shell W → Shell W) → Exec W (Unit {0})
  modify f = λ sh. (f sh, ok tt)

  -- A result as a computation.
  abbrev pub lift : {A : Type 0} → Result ShellError A → Exec W A
  lift r = λ sh. (sh, r)

  -- The state as `m` leaves it, and what `f` makes of its result.
  abbrev pub with_result :
      {A B : Type 0} → (Result ShellError A → Result ShellError B) → Exec W A → Exec W B
  with_result f m = λ sh. let r = m sh in (r.0, f r.1)

  -- `m` without `?`
  abbrev pub attempt : {A : Type 0} → Exec W A → Exec W (Result ShellError A)
  attempt m = with_result caught m

  unfoldable pub get_env : Str → Exec W (Option Str)
  get_env key = λ sh. (sh, ok (lookup key sh.shared.env))

  unfoldable pub set_env : Str → Str → Exec W (Unit {0})
  set_env key value =
      modify
        (λ sh. record sh { shared = record sh.shared { env = insert key value sh.shared.env } })

  unfoldable pub unset_env : Str → Exec W (Unit {0})
  unset_env key =
      modify (λ sh. record sh { shared = record sh.shared { env = remove key sh.shared.env } })

  unfoldable pub set_last_exit : ExitCode → Exec W (Unit {0})
  set_last_exit code = modify (λ sh. record sh { last_exit = code })

  unfoldable pub resolve : Str → Exec W Str
  resolve path = λ sh. (sh, ok (resolve_path sh.shared.cwd path))

  -- `VecWriter::new`
  unfoldable pub new_writer : Exec W Writer
  new_writer = λ sh. (
    record sh { world = record sh.world { buffers = sh.world.buffers ++ [] ∷ [] } },
    ok (length sh.world.buffers),
  )

  unfoldable pub bytes_of : Writer → Exec W (List ℕ)
  unfolding contents
  bytes_of w = λ sh. (sh, ok (contents w sh.world.buffers))

  -- `write_all`, whose result nobody reads
  unfoldable pub write_to : Writer → List ℕ → World W → World W
  unfolding contents
  write_to w bytes world = record world {
    buffers = set world.buffers w (contents w world.buffers ++ bytes);
  }

  unfoldable pub write_all : Writer → List ℕ → Exec W (Unit {0})
  unfolding write_to
  write_all w bytes = modify (λ sh. record sh { world = write_to w bytes sh.world })

  -- An operation of the filesystem.
  unfoldable pub with_fs :
      {A : Type 0} → (Vfs W → Vfs W × Result VfsError A) → Exec W (Result VfsError A)
  unfolding settle
  with_fs f = λ sh.
      let r = f sh.world.fs in (record sh { world = record sh.world { fs = r.0 } }, settle r.1)

  -- `?` on a `VfsError`
  unfoldable pub or_fail : {A : Type 0} → Result VfsError A → Exec W A
  or_fail (ok a) = return a
  or_fail (err e) = fail (vfs e)
