-- ===== src/Vfs/Tree/Lookup.antt =====
-- The map laws of a directory's entries.
use wasm_shell.Base.{◌≡◌, refl, none, some, Str, str_eq, arith, if◌then◌else◌}
use wasm_shell.Vfs.Tree.{VfsNode, Entries, end, entry, get, insert, remove}

pub get-insert :
    (j k : Str) (n : VfsNode) (m : Entries)
    → get j (insert k n m) ≡ (if str_eq j k then some n else get j m)
unfolding get insert
get-insert j k n end = refl
get-insert j k n (entry i o m) = ground (arith, get-insert j k n m)

pub get-remove :
    (j k : Str) (m : Entries) → get j (remove k m) ≡ (if str_eq j k then none else get j m)
unfolding get remove
get-remove j k end = ground arith
get-remove j k (entry i o m) = ground (arith, get-remove j k m)
