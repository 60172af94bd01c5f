-- ===== src/Lib.antt =====
-- A model of wasm-shell: a Bourne-like shell for WebAssembly with a virtual filesystem, in the crates `wasm_shell` and
-- `bash_parser`.
--
-- The program. `Shell` (crates/wasm_shell/src/shell.rs) holds the filesystem, the registered programs, the environment,
-- the working directory, the aliases and the last exit code. `exec` parses a text into the tree of
-- crates/bash_parser/src/ast.rs and runs it: `execute_script` (exec.rs) walks the tree, `expand_word` (expand.rs)
-- expands words and may run scripts itself, `dispatch` calls the commands that need the shell, and else a program from
-- the registry (registry.rs). Programs and redirections read and write files through `Vfs` (vfs.rs), a tree in memory
-- with mounts over it, and streams through the buffers of io.rs.
--
-- The files.
--   Base           the library's names, lists, text, results, maps with text keys, `i64`, UTF-8
--   Vfs/Path       paths and `VfsError`: `normalize_path`, `resolve_path`, `path_components`, `split_parent`
--   Vfs/Tree       the node tree: `node_at`, `mem_set_node` and the other `mem_` functions
--   Vfs/Mount      the mount table: `add_mount`, `find_mount`
--   Vfs/Ops        the public operations of `Vfs`, one function each, under the names of the source
--   Bash/Ast       the syntax tree of crates/bash_parser
--   Bash/Error     its spans and errors
--   Bash/Lexer     lexer.rs: `Scan` the primitives, `Word`, `Redirect`, `Fragment` and `Next` the tokens, `Heredoc` the
--                  bodies
--   Bash/Names     the scans of parser.rs that have no state
--   Bash/Words, Bash/WordParts  the expansions in a word
--   Bash/Parser    the state of `Parser`, simple commands and the grammar
--   Bash/Fill      `fill_heredoc_bodies` and `parse`
--   Shell/Arith    `eval_arith` in expand.rs: variables, tokenizer, parser, operators
--   Shell/State    the state, streams, environment, errors, and the monad of computations on the state
--   Shell/Context  `ProgramContext`, what a registered program does with the shell
--   Shell/Registry registry.rs
--   Shell/Steps    the parts of expand.rs and exec.rs that run no commands
--   Shell/Exec     `expand_word` and `execute_command` with all that they call, in one recursion on the syntax
--   Shell/Dispatch `dispatch_builtin` and `dispatch`
--   Shell/Session  `Shell::new`, `add_program`, `mount`, `exec`, `exec_with_stdin`
--   Shell/Builtins the programs of builtins.rs that need no library of their own: the text functions, `glob_match`, `test`
--                  and the programs on the shell's state
-- Below each of these stand the modules with its properties. Shell/Exec/Simulation carries a relation of computations
-- through the whole recursion on the syntax, and Shell/Dispatch/Related through the dispatcher; the properties of all
-- scripts are instances of these.
--
-- State and errors. A filesystem operation takes the filesystem and gives it back with a `Result`, on an error too. A
-- shell computation does the same with the whole shell, since the source keeps its changes when an error is passed on
-- by `?`. A failed `unwrap` or `expect` is an error of its own, `panic`, which no handler takes. The host behind a mount
-- is a state of its own, and the mount's callbacks, like the registered programs, are functions on what they share with
-- the shell. A writer is an index into the list of buffers, so that clones share a buffer.
--
-- Numbers and text. Text is a list of code points, file contents are lists of byte values. `i64` arithmetic wraps
-- around at 64 bits, as in a release build.
--
-- The parser. A computation gives back its state with the result, on an error too, since the queue of heredoc bodies
-- belongs to the thread and outlives a parse that fails. `parse` is an argument of the functions that call it on the text
-- of a command substitution.
--
-- Fuel. The lexer's loop for words has as much as there are characters, its loop for the lines of a heredoc one more, and
-- the retry behind a comment two rounds; the loops of the parser have two more than there are characters, and `parse` has
-- fuel for the depth of command substitutions, of which each is shorter than the text around it, or than the heredoc body
-- around it, in which no further body is filled; the parser never uses any of it up. The arithmetic
-- tokenizer has as much as there are characters, the arithmetic parser twice the number of tokens and two more, and
-- neither ever uses it up. The execution of a script needs none, since it recurses on the syntax. `dispatch` has fuel for
-- the depth to which `source` and `xargs` nest, which nothing bounds in the source: a file may source itself. A
-- condition of `test` has one unit more than its arguments, which it never uses up.
--
-- Not modelled. The display of a parse error with its source line. The programs of builtins.rs that stand on the libraries for
-- patterns, images, TOML and arithmetic, and so far those on files and lines of text: a new shell takes its list of programs
-- as an argument. The session takes the parser as an argument, `parse_source` being one. The bindings in wasm.rs. Locks and `async`:
-- nothing runs beside the shell, and a lock is free whenever it is taken. Of an arithmetic error message the part that
-- names the offending token.
pub mod Base
pub mod Vfs
pub mod Bash
pub mod Shell
