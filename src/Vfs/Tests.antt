-- ===== src/Vfs/Tests.antt =====
-- The filesystem's theorems at small trees, and runs of its operations.
use wasm_shell.Base.{
  ◌≡◌, refl, true, false, none, inl, List, [], ◌∷◌, Str, codes, str_dec, split, starts_with, join,
  str_lt, trim_start_matches, arith, ok, err, All,
}
use wasm_shell.Vfs.Path.{
  VfsError, not_found, slash, normalize_path, resolve_path, path_components, split_parent,
  render_path,
}
use wasm_shell.Vfs.Path.Normal.{IsPlain, segments, normalize_path_idem, resolve_path-IsPlain}
use wasm_shell.Vfs.Tree.{
  VfsNode, file, dir, device, null, Entries, end, entry, get, insert, remove, node_at, mem_set_node,
  mem_mkdir, mem_remove_node, modify_at, mem_list, mem_stat, mem_remove, mem_mkdir_parents,
}
use wasm_shell.Vfs.Tree.Walk.{NotBelow}
use wasm_shell.Vfs.Mount.{MountPoint, MountEntry, mounted, find_mount, add_mount}
use wasm_shell.Vfs.Mount.Longest.{IsSorted, add_mount-IsSorted}
use wasm_shell.Vfs.Mount.Added.{}
use wasm_shell.Vfs.Mount.Root.{}
use wasm_shell.Vfs.Ops
use wasm_shell.Vfs.Ops.{Vfs, write_file, read_file, stat, write_check}
use wasm_shell.Vfs.Ops.Unmounted.{node_of}
use wasm_shell.Vfs.Ops.Write.{
  HasParent, read_file-write_file, write_file_err, write_file-frame, write_file-succeeds,
}
use wasm_shell.Vfs.Ops.Dirs.{stat-remove}
use wasm_shell.Vfs.Ops.Rename.{rename-found, rename_loses}

-- /a is a file, /d an empty directory, /null the null device.
abbrev tree : Entries → VfsNode
tree inner = dir (
    entry (codes "a") (file (1 ∷ []))
      (entry (codes "d") (dir inner) (entry (codes "null") (device null) end)))

abbrev disk : VfsNode → Vfs (Unit {0})
disk root = record { root = root; mounts = []; host = tt }

abbrev home : Vfs (Unit {0})
home = disk (tree end)

abbrev in_d : Str
in_d = codes "/d/./f"

abbrev written : Vfs (Unit {0})
written = disk (tree (entry (codes "f") (file (7 ∷ [])) end))

segments-in_d : segments in_d ≡ codes "d" ∷ codes "f" ∷ []
unfolding segments split str_dec
segments-in_d = refl

no_mounts : (path : Str) → mounted {W = Unit {0}} [] path ≡ none
unfolding mounted
no_mounts path = refl

writes : write_file home in_d (7 ∷ []) ≡ (written, ok tt)
unfolding write_file mounted normalize_path path_components node_at mem_set_node split_parent
    modify_at split str_dec join trim_start_matches insert get str_lt
writes = refl

in_d_free : node_of home in_d ≡ err (not_found (codes "/d/f"))
unfolding node_at get segments split str_dec normalize_path join
in_d_free = refl

NotBelow-a : NotBelow (segments in_d) (segments (codes "a"))
NotBelow-a r = rw segments-in_d (unfold segments split str_dec in λ p. ground (arith, p))

-- Paths

normalize_path_runs : normalize_path (codes "/usr//bin/../lib/./x") ≡ codes "/usr/lib/x"
unfolding normalize_path split str_dec join
normalize_path_runs = refl

resolve_path_runs : resolve_path (codes "/home/u") (codes "../v") ≡ codes "/home/v"
unfolding resolve_path starts_with split str_dec join
resolve_path_runs = refl

IsPlain-d : IsPlain (codes "d")
IsPlain-d = record {
  nonempty = λ p. ground (arith, p);
  no_dot = λ p. ground (arith, p);
  no_dot_dot = λ p. ground (arith, p);
  no_slash = ((λ p. ground (arith, p)), tt);
}

normalize_path_idem_example : normalize_path (normalize_path in_d) ≡ normalize_path in_d
normalize_path_idem_example = normalize_path_idem in_d

resolve_path-IsPlain_example :
    (segs : List Str) × All IsPlain segs × (resolve_path (codes "/home") in_d ≡ render_path segs)
resolve_path-IsPlain_example = resolve_path-IsPlain (codes "/home") in_d

-- Writes and reads

read_file-write_file_example : read_file written in_d ≡ (written, ok (7 ∷ []))
read_file-write_file_example =
    read_file-write_file home in_d (7 ∷ []) (no_mounts _) written writes (λ k p. cc in_d_free)

write_root_fails : (write_file home slash []).1 ≡ err (VfsError.is_a_dir slash)
unfolding write_file mounted normalize_path path_components node_at split str_dec join
    trim_start_matches
write_root_fails = refl

write_file_err_example : (write_file home slash []).0 ≡ home
write_file_err_example =
    write_file_err home slash [] (no_mounts _) (VfsError.is_a_dir slash) write_root_fails

write_file-frame_example :
    ((read_file (write_file home in_d (7 ∷ [])).0 (codes "a")).1 ≡ (read_file home (codes "a")).1)
    × ((stat (write_file home in_d (7 ∷ [])).0 (codes "a")).1 ≡ (stat home (codes "a")).1)
write_file-frame_example =
    write_file-frame home in_d (7 ∷ []) (no_mounts _) (codes "a") NotBelow-a (no_mounts _)

in_directory : HasParent home in_d end (codes "f")
unfolding node_at get str_dec
in_directory = record { parent = codes "d" ∷ []; below = segments-in_d; is_dir = refl }

write_file-succeeds_example :
    (v' : Vfs (Unit {0})) × (write_file home in_d (7 ∷ []) ≡ (v', ok tt))
    × (read_file v' in_d ≡ (v', ok (7 ∷ [])))
unfolding get
write_file-succeeds_example =
    write_file-succeeds home in_d (7 ∷ []) (no_mounts _) end (codes "f") in_directory (inl refl)

-- Directories

abbrev made : Vfs (Unit {0})
made = disk (tree (entry (codes "f") (dir end) end))

makes : Ops.mkdir home in_d false ≡ (made, ok tt)
unfolding Ops.mkdir normalize_path path_components node_at mem_mkdir split_parent modify_at split
    str_dec join trim_start_matches insert get str_lt
makes = refl

makes_parents : Ops.mkdir home in_d true ≡ (made, ok tt)
unfolding Ops.mkdir normalize_path path_components node_at mem_mkdir mem_mkdir_parents mem_stat
    split_parent modify_at split str_dec join trim_start_matches insert get str_lt
makes_parents = refl

removes : Ops.remove written in_d false ≡ (home, ok tt)
unfolding Ops.remove mounted normalize_path path_components node_at mem_remove mem_list
    mem_remove_node split_parent modify_at split str_dec join trim_start_matches insert get remove
    str_lt
removes = refl

stat-remove_example : stat home in_d ≡ (home, err (not_found (normalize_path in_d)))
stat-remove_example = stat-remove written in_d false (no_mounts _) home removes

-- Renaming

abbrev moved : Vfs (Unit {0})
moved = disk (
    dir (
      entry (codes "d") (dir (entry (codes "f") (file (1 ∷ [])) end))
        (entry (codes "null") (device null) end)))

moves : Ops.rename home (codes "/a") in_d ≡ (moved, ok tt)
unfolding Ops.rename mounted find_mount normalize_path path_components node_at mem_set_node
    mem_remove_node split_parent modify_at split str_dec join trim_start_matches insert get remove
    str_lt
moves = refl

rename-found_example :
    (n : VfsNode) × (node_of home (codes "/a") ≡ ok n) × (node_of moved in_d ≡ ok n)
unfolding find_mount
rename-found_example = rename-found home (codes "/a") in_d refl refl moved moves

abbrev nowhere : Str
nowhere = codes "/gone/f"

move_fails : (Ops.rename home (codes "/a") nowhere).1 ≡ err (not_found (codes "/gone"))
unfolding Ops.rename mounted find_mount normalize_path path_components node_at mem_set_node
    mem_remove_node split_parent modify_at split str_dec join trim_start_matches insert get remove
    str_lt
move_fails = refl

rename_loses_example :
    node_of (Ops.rename home (codes "/a") nowhere).0 (codes "/a")
    ≡ err (not_found (normalize_path (codes "/a")))
unfolding find_mount node_at get segments split str_dec
rename_loses_example =
    rename_loses home (codes "/a") nowhere refl refl (file (1 ∷ [])) (not_found (codes "/gone"))
      refl (λ p. ground (arith, p)) move_fails

-- Mounts

abbrev silent : MountPoint (Unit {0})
silent = record {
  read = λ p w. (ok [], w);
  write = λ p b w. (ok tt, w);
  list = λ p w. (ok [], w);
  stat = λ p w. (ok (record { is_file = true; is_dir = false; is_device = false; size = 0 }), w);
  remove = λ p w. (ok tt, w);
}

abbrev table : List (MountEntry (Unit {0}))
table =
    record { vpath = codes "/home/u"; point = silent }
    ∷ record { vpath = codes "/home"; point = silent }
    ∷ []

add_mount-IsSorted_example : IsSorted (add_mount table (codes "/home/u/x/y") silent)
add_mount-IsSorted_example = add_mount-IsSorted table (codes "/home/u/x/y") silent
