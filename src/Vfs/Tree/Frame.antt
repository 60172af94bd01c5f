-- ===== src/Vfs/Tree/Frame.antt =====
-- Changes of one entry, seen from other paths by an observation that cannot tell one directory from another: for the
-- `mem_` functions of crates/wasm_shell/src/vfs.rs.
use wasm_shell.Base.{
  ◌≡◌, ◌≢◌, refl, sym, ap, ap₂, subst, List, [], ◌∷◌, ◌++◌, Str, str_dec, arith, Result, ok, ◌>>=◌,
}
use wasm_shell.Vfs.Path.{VfsError}
use wasm_shell.Vfs.Tree.{
  VfsNode, Entries, end, file, dir, device, get, insert, remove, child_of, put_child, node_at,
  modify_at, set_in, mkdir_in, remove_in,
}
use wasm_shell.Vfs.Tree.Lookup.{get-insert, get-remove}
use wasm_shell.Vfs.Tree.Walk.{
  NotBelow, modify_at-cons-eq-ok, child_of-put_child, child_of-put_child_ne, child_of_any,
}

-- Two walks agree for such an observation: they found the same, or both a directory.
pub data Agree : Result VfsError VfsNode → Result VfsError VfsNode → Type 0 where
  same : (r : Result VfsError VfsNode) → Agree r r
  dirs : (m m' : Entries) → Agree (ok (dir m)) (ok (dir m'))

pub Agree-of_eq : (r s : Result VfsError VfsNode) → r ≡ s → Agree r s
Agree-of_eq r s e = subst (Agree r) e (same r)

-- What such an observation sees.
pub Agree-observed :
    {X : Type 0} (see : Result VfsError VfsNode → X)
    → ((m m' : Entries) → see (ok (dir m)) ≡ see (ok (dir m')))
    → {r s : Result VfsError VfsNode} → Agree r s
    → see r ≡ see s
Agree-observed see blind (same r) = refl
Agree-observed see blind (dirs m m') = blind m m'

-- A change of a directory that touches the entry `name` alone.
pub data IsLocal (name : Str) : VfsNode → VfsNode → Type 0 where
  at_entry :
      (m m' : Entries) → ((d : Str) → d ≢ name → get d m' ≡ get d m) → IsLocal name (dir m) (dir m')

module _ (name : Str) (n' : VfsNode) where
  pub set_in-IsLocal :
      (p : Str) (node n : VfsNode) (a : Unit {0})
      → set_in p name node n ≡ ok (n', a)
      → IsLocal name n n'
  unfolding set_in
  set_in-IsLocal p node (dir m) a h =
      subst (IsLocal name (dir m)) (ground (arith, h))
        (at_entry m (insert name node m) (λ d ne. ground (arith, get-insert d name node m)))
  set_in-IsLocal p node (file b) a h = cc
  set_in-IsLocal p node (device b) a h = cc

  pub mkdir_in-IsLocal :
      (path p : Str) (n : VfsNode) (a : Unit {0})
      → mkdir_in path p name n ≡ ok (n', a)
      → IsLocal name n n'
  unfolding mkdir_in
  mkdir_in-IsLocal path p (dir m) a h =
      subst (IsLocal name (dir m)) {x = dir (insert name (dir end) m)} (ground (arith, h)) (
        at_entry m (insert name (dir end) m)
          (λ d ne. ground (arith, get-insert d name (dir end) m)))
  mkdir_in-IsLocal path p (file b) a h = cc
  mkdir_in-IsLocal path p (device b) a h = cc

  pub remove_in-IsLocal :
      (path p : Str) (n a : VfsNode) → remove_in path p name n ≡ ok (n', a) → IsLocal name n n'
  unfolding remove_in
  remove_in-IsLocal path p (dir m) a h =
      subst (IsLocal name (dir m)) {x = dir (remove name m)} (ground (arith, h))
        (at_entry m (remove name m) (λ d ne. ground (arith, get-remove d name m)))
  remove_in-IsLocal path p (file b) a h = cc
  remove_in-IsLocal path p (device b) a h = cc

local-child_of :
    (name : Str) (n n' : VfsNode) (d : Str) (o : Str)
    → IsLocal name n n'
    → d ≢ name
    → child_of n d o ≡ child_of n' d o
unfolding child_of
local-child_of name n n' d o (at_entry m m' h) ne = ground (arith, h d ne)

local_frame :
    (name : Str) (n n' : VfsNode) (ds : List Str) (o : Str)
    → IsLocal name n n'
    → NotBelow (name ∷ []) ds
    → Agree (node_at n ds o) (node_at n' ds o)
unfolding node_at
local_frame name n n' [] o (at_entry m m' h) nb = dirs m m'
local_frame name n n' (d ∷ ds) o l nb = Agree-of_eq _ _ (
    ap (λ x. x >>= λ child. node_at child ds o)
      (local-child_of name n n' d o l (λ p. nb ds (ap (λ x. x ∷ ds) p))))

-- The node put back is a directory, if it had the child.
put_child-dirs :
    (root : VfsNode) (c : Str) (o : Str) (n n' : VfsNode)
    → child_of root c o ≡ ok n
    → Agree (ok root) (ok (put_child c n' root))
unfolding child_of put_child
put_child-dirs (dir m) c o n n' h = dirs m (insert c n' m)
put_child-dirs (file b) c o n n' h = cc
put_child-dirs (device b) c o n n' h = cc

module _ {A : Type 0} (name : Str) (change : VfsNode → Result VfsError (VfsNode × A))
    (is_local : (n n' : VfsNode) (a : A) → change n ≡ ok (n', a) → IsLocal name n n') where
  -- A walk that does not come to the entry agrees before and after the change.
  pub modify_at-frame :
      (root : VfsNode) (cs : List Str) (o : Str) (root' : VfsNode) (a : A)
      → modify_at root cs o change ≡ ok (root', a)
      → (ds : List Str) (o' : Str) → NotBelow (cs ++ name ∷ []) ds
      → Agree (node_at root ds o') (node_at root' ds o')
  unfolding node_at modify_at
  modify_at-frame root [] o root' a h ds o' nb =
      local_frame name root root' ds o' (is_local root root' a h) nb
  modify_at-frame root (c ∷ cs) o root' a h ds o' nb =
      let (child, child', p, q, e) = modify_at-cons-eq-ok root c cs o change root' a h in
      rw e (step child child' p (λ ds nb'. modify_at-frame child cs o child' a q ds o' nb') ds nb)
    where
      step :
          (child child' : VfsNode)
          → child_of root c o ≡ ok child
          → ((ds : List Str)
              → NotBelow (cs ++ name ∷ []) ds
              → Agree (node_at child ds o') (node_at child' ds o'))
          → (ds : List Str) → NotBelow (c ∷ (cs ++ name ∷ [])) ds
          → Agree (node_at root ds o') (node_at (put_child c child' root) ds o')
      step child child' p ih [] nb = put_child-dirs root c o child child' p
      step child child' p ih (d ∷ ds) nb = elim (str_dec d c) [
        | yes e ↦
            rw (e, child_of_any root c o o' p, child_of-put_child c child' root o o' p)
              (ih ds (λ r x. nb r (ap₂ (λ u v. u ∷ v) e x)))
        | no n ↦ Agree-of_eq _ _ (
            ap (λ x. x >>= λ child. node_at child ds o')
              (sym (child_of-put_child_ne c d child' root o' n)))
      ]
