-- ===== src/Shell.antt =====
-- The shell in crates/wasm_shell/src: its state, the programs, expansion and execution.
pub mod Arith
pub mod State
pub mod Context
pub mod Registry
pub mod Steps
pub mod Exec
pub mod Dispatch
pub mod Session
pub mod Builtins
mod Tests
