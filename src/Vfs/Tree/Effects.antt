-- ===== src/Vfs/Tree/Effects.antt =====
-- What the helpers that change the tree leave at their path and elsewhere.
use wasm_shell.Base.{
  ◌≡◌, ◌≢◌, refl, sym, ◌∙◌, inl, inr, subst, List, [], ◌∷◌, ◌++◌, Str, Result, ok, err, ◌>>=◌,
  >>=-eq-ok, append_one-cases,
}
use wasm_shell.Vfs.Path.{VfsError, not_found, already_exists, normalize_path, render_path}
use wasm_shell.Vfs.Path.Normal.{segments}
use wasm_shell.Vfs.Tree.{
  VfsNode, Entries, dir, end, insert, node_at, modify_at, set_in, mkdir_in, remove_in, mem_set_node,
  mem_mkdir, mem_remove_node,
}
use wasm_shell.Vfs.Tree.Walk.{
  NotBelow, modify_at-eq-ok, modify_at-succeeds, node_at-append, node_at_any, set_in-found,
  mkdir_in-found, remove_in-found, remove_in-succeeds, mkdir_in_exists, modify_at_err,
}
use wasm_shell.Vfs.Tree.Frame.{
  Agree, modify_at-frame, set_in-IsLocal, mkdir_in-IsLocal, remove_in-IsLocal,
}
use wasm_shell.Vfs.Tree.Paths.{
  mem_set_node-below, mem_mkdir-below, mem_remove_node-below, mem_set_node_root,
  mem_remove_node_root,
}

-- A change of the entry `name` in the directory at `cs`, and what is found there afterwards.
module _ {A : Type 0} (cs : List Str) (name : Str) (o : Str)
    (change : VfsNode → Result VfsError (VfsNode × A)) (root root' : VfsNode) (a : A)
    (changed : modify_at root cs o change ≡ ok (root', a)) where
  found_after :
      (o' : Str) (r : Result VfsError VfsNode)
      → ((n n' : VfsNode) → change n ≡ ok (n', a) → node_at n' (name ∷ []) o' ≡ r)
      → node_at root' (cs ++ name ∷ []) o' ≡ r
  found_after o' r leaves =
      let (n, n', at, done, found) = modify_at-eq-ok root cs o change root' a changed in
      rw (node_at-append root' cs (name ∷ []) o', found o', ◌>>=◌) (leaves n n' done)

module _ (path : Str) (root root' : VfsNode) where
  module _ (node : VfsNode)
      (done : mem_set_node root (normalize_path path) node ≡ ok (root', tt)) where
    pub mem_set_node-found : (o : Str) → node_at root' (segments path) o ≡ ok node
    mem_set_node-found o = elim (append_one-cases (segments path)) [
      | inl e ↦ cc (mem_set_node_root path e root node)
      | inr (cs, name, e) ↦ rw e (
          found_after cs name (render_path cs) (set_in (render_path cs) name node) root root' tt
            (sym (mem_set_node-below path cs name e root node) ∙ done) o (ok node)
            (λ n n' h. set_in-found (render_path cs) name node n n' o h))
    ]

    pub mem_set_node-frame :
        (ds : List Str) (o : Str)
        → NotBelow (segments path) ds
        → Agree (node_at root ds o) (node_at root' ds o)
    mem_set_node-frame ds o nb = elim (append_one-cases (segments path)) [
      | inl e ↦ cc (mem_set_node_root path e root node)
      | inr (cs, name, e) ↦
          modify_at-frame name (set_in (render_path cs) name node)
            (λ n n' a h. set_in-IsLocal name n' (render_path cs) node n a h) root cs
            (render_path cs) root' tt (sym (mem_set_node-below path cs name e root node) ∙ done) ds
            o (subst (λ p. NotBelow p ds) e nb)
    ]

  module _ (done : mem_mkdir root (normalize_path path) ≡ ok (root', tt)) where
    pub mem_mkdir-found :
        (o : Str) → segments path ≢ [] → node_at root' (segments path) o ≡ ok (dir end)
    mem_mkdir-found o ne = elim (append_one-cases (segments path)) [
      | inl e ↦ absurd (ne e)
      | inr (cs, name, e) ↦ rw e (
          found_after cs name (render_path cs)
            (mkdir_in (normalize_path path) (render_path cs) name) root root' tt
            (sym (mem_mkdir-below path cs name e root) ∙ done) o (ok (dir end))
            (λ n n' h. mkdir_in-found (normalize_path path) (render_path cs) name n n' o h))
    ]

    pub mem_mkdir-frame :
        (ds : List Str) (o : Str)
        → NotBelow (segments path) ds
        → Agree (node_at root ds o) (node_at root' ds o)
    mem_mkdir-frame ds o nb = elim (append_one-cases (segments path)) [
      | inl e ↦ absurd (nb ds (rw e refl))
      | inr (cs, name, e) ↦
          modify_at-frame name (mkdir_in (normalize_path path) (render_path cs) name)
            (λ n n' a h. mkdir_in-IsLocal name n' (normalize_path path) (render_path cs) n a h) root
            cs (render_path cs) root' tt (sym (mem_mkdir-below path cs name e root) ∙ done) ds o
            (subst (λ p. NotBelow p ds) e nb)
    ]

  module _ (node : VfsNode)
      (done : mem_remove_node root (normalize_path path) ≡ ok (root', node)) where
    pub mem_remove_node-found :
        (o : Str)
        → (node_at root (segments path) o ≡ ok node)
          × (node_at root' (segments path) o ≡ err (not_found o))
    mem_remove_node-found o = elim (append_one-cases (segments path)) [
      | inl e ↦ cc (mem_remove_node_root path e root)
      | inr (cs, name, e) ↦
          let (n, n', at, h, found) =
            modify_at-eq-ok root cs (render_path cs)
              (remove_in (normalize_path path) (render_path cs) name) root' node
              (sym (mem_remove_node-below path cs name e root) ∙ done) in
          let (before, after) =
            remove_in-found (normalize_path path) (render_path cs) name n n' node o h in
          (
            rw
                (
                  e,
                  node_at-append root cs (name ∷ []) o,
                  node_at_any root cs (render_path cs) o at,
                  ◌>>=◌,
                )
                before,
            rw (e, node_at-append root' cs (name ∷ []) o, found o, ◌>>=◌) after,
          )
    ]

    pub mem_remove_node-frame :
        (ds : List Str) (o : Str)
        → NotBelow (segments path) ds
        → Agree (node_at root ds o) (node_at root' ds o)
    mem_remove_node-frame ds o nb = elim (append_one-cases (segments path)) [
      | inl e ↦ cc (mem_remove_node_root path e root)
      | inr (cs, name, e) ↦
          modify_at-frame name (remove_in (normalize_path path) (render_path cs) name)
            (λ n n' a h. remove_in-IsLocal name n' (normalize_path path) (render_path cs) n a h)
            root cs (render_path cs) root' node
            (sym (mem_remove_node-below path cs name e root) ∙ done) ds o
            (subst (λ p. NotBelow p ds) e nb)
    ]

-- A node can be put under any name of a directory.
pub mem_set_node-succeeds :
    (path : Str) (cs : List Str) (name : Str)
    → segments path ≡ cs ++ name ∷ []
    → (root node : VfsNode) (o : Str) (m : Entries) → node_at root cs o ≡ ok (dir m)
    → (root' : VfsNode) × (mem_set_node root (normalize_path path) node ≡ ok (root', tt))
unfolding set_in
mem_set_node-succeeds path cs name below root node o m at =
    let (root', done) =
      modify_at-succeeds root cs (render_path cs) (set_in (render_path cs) name node) (dir m)
        (dir (insert name node m)) tt (node_at_any root cs o (render_path cs) at) refl in
    (root', mem_set_node-below path cs name below root node ∙ done)

-- Every node below the root can be taken out.
pub mem_remove_node-succeeds :
    (path : Str) (root node : VfsNode) (o : Str)
    → segments path ≢ []
    → node_at root (segments path) o ≡ ok node
    → (root' : VfsNode) × (mem_remove_node root (normalize_path path) ≡ ok (root', node))
mem_remove_node-succeeds path root node o ne at = elim (append_one-cases (segments path)) [
  | inl e ↦ absurd (ne e)
  | inr (cs, name, e) ↦
      let p = normalize_path path in
      let (n, q, entry) =
        >>=-eq-ok (node_at root cs o) _
          (sym (node_at-append root cs (name ∷ []) o) ∙ rw (← e) at) in
      let (n', removed) = remove_in-succeeds p (render_path cs) name n node o entry in
      let (root', done) =
        modify_at-succeeds root cs (render_path cs) (remove_in p (render_path cs) name) n n' node
          (node_at_any root cs o (render_path cs) q) removed in
      (root', mem_remove_node-below path cs name e root ∙ done)
]

pub mem_mkdir_exists :
    (path : Str) (root node : VfsNode) (o : Str)
    → segments path ≢ []
    → node_at root (segments path) o ≡ ok node
    → mem_mkdir root (normalize_path path) ≡ err (already_exists (normalize_path path))
mem_mkdir_exists path root node o ne at = elim (append_one-cases (segments path)) [
  | inl e ↦ absurd (ne e)
  | inr (cs, name, e) ↦
      let p = normalize_path path in
      let (n, q, entry) =
        >>=-eq-ok (node_at root cs o) _
          (sym (node_at-append root cs (name ∷ []) o) ∙ rw (← e) at) in
      mem_mkdir-below path cs name e root
      ∙ modify_at_err root cs (render_path cs) (mkdir_in p (render_path cs) name) n
          (already_exists p) (node_at_any root cs o (render_path cs) q)
          (mkdir_in_exists p (render_path cs) name n node o entry)
]
