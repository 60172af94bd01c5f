-- ===== src/Vfs.antt =====
-- crates/wasm_shell/src/vfs.rs: the paths, the tree in memory, the mounts, and the public operations.
pub mod Path
pub mod Tree
pub mod Mount
pub mod Ops
mod Tests
