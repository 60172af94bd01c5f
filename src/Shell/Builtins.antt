-- ===== src/Shell/Builtins.antt =====
-- The programs in crates/wasm_shell/src/builtins.rs.
pub mod Text
pub mod Glob
pub mod Env
pub mod Condition
pub mod Register
