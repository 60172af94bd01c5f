-- ===== src/Vfs/Tree/Walk.antt =====
-- The laws of the walks `node_at` and `modify_at`, over lists of components.
use wasm_shell.Base.{
  ◌≡◌, ◌≢◌, refl, List, [], ◌∷◌, ◌++◌, Str, arith, Result, ok, err, ◌>>=◌, >>=-eq-ok,
}
use wasm_shell.Vfs.Path.{VfsError, not_found, already_exists}
use wasm_shell.Vfs.Tree.{
  VfsNode, end, file, dir, device, remove, child_of, put_child, node_at, modify_at, set_in,
  mkdir_in, remove_in,
}
use wasm_shell.Vfs.Tree.Lookup.{get-insert, get-remove}

-- `ds` is not `p` and does not lie below it.
abbrev pub NotBelow : List Str → List Str → Type 0
NotBelow p ds = (r : List Str) → ds ≢ p ++ r

-- The child that was put back is the one that is found.
pub child_of-put_child :
    (c : Str) (n root : VfsNode) (o o' : Str) {m : VfsNode}
    → child_of root c o ≡ ok m
    → child_of (put_child c n root) c o' ≡ ok n
unfolding child_of put_child
child_of-put_child c n (dir m) o o' h = ground (arith, get-insert c c n m)
child_of-put_child c n (file b) o o' h = cc
child_of-put_child c n (device k) o o' h = cc

pub child_of-put_child_ne :
    (c d : Str) (n root : VfsNode) (o : Str)
    → d ≢ c
    → child_of (put_child c n root) d o ≡ child_of root d o
unfolding child_of put_child
child_of-put_child_ne c d n (dir m) o h = ground (arith, get-insert d c n m)
child_of-put_child_ne c d n (file b) o h = refl
child_of-put_child_ne c d n (device k) o h = refl

-- One step of a change that succeeded.
pub modify_at-cons-eq-ok :
    {A : Type 0} (root : VfsNode) (c : Str) (cs : List Str) (o : Str)
    (change : VfsNode → Result VfsError (VfsNode × A)) (root' : VfsNode) (a : A)
    → modify_at root (c ∷ cs) o change ≡ ok (root', a)
    → (child child' : VfsNode) × (child_of root c o ≡ ok child)
      × (modify_at child cs o change ≡ ok (child', a))
      × (root' ≡ put_child c child' root)
unfolding modify_at
modify_at-cons-eq-ok root c cs o change root' a h =
    let (child, p, q) = >>=-eq-ok (child_of root c o) _ h in
    let (r, q₁, q₂) = >>=-eq-ok (modify_at child cs o change) _ q in
    (child, r.0, p, ground (arith, q₁, q₂), ground (arith, q₂))

-- A change that succeeded was made at a node that the walk finds, and is found there afterwards.
pub modify_at-eq-ok :
    {A : Type 0} (root : VfsNode) (cs : List Str) (o : Str)
    (change : VfsNode → Result VfsError (VfsNode × A)) (root' : VfsNode) (a : A)
    → modify_at root cs o change ≡ ok (root', a)
    → (n n' : VfsNode) × (node_at root cs o ≡ ok n)
      × (change n ≡ ok (n', a))
      × ((o' : Str) → node_at root' cs o' ≡ ok n')
unfolding modify_at node_at
modify_at-eq-ok root [] o change root' a h = (root, root', refl, h, λ o'. refl)
modify_at-eq-ok root (c ∷ cs) o change root' a h =
    let (child, child', p, q, e) = modify_at-cons-eq-ok root c cs o change root' a h in
    let (n, n', at, changed, found) = modify_at-eq-ok child cs o change child' a q in
    (n, n', rw p at, changed, λ o'. rw (e, child_of-put_child c child' root o o' p) (found o'))

-- The walk over a list that ends in one more component.
pub node_at-append :
    (root : VfsNode) (cs ds : List Str) (o : Str)
    → node_at root (cs ++ ds) o ≡ (node_at root cs o >>= λ n. node_at n ds o)
unfolding node_at
node_at-append root [] ds o = refl
node_at-append root (c ∷ cs) ds o = step (child_of root c o) (λ n. node_at-append n cs ds o)
  where
    step :
        (x : Result VfsError VfsNode)
        → ((n : VfsNode) → node_at n (cs ++ ds) o ≡ (node_at n cs o >>= λ m. node_at m ds o))
        → (x >>= λ n. node_at n (cs ++ ds) o)
          ≡ ((x >>= λ n. node_at n cs o) >>= λ m. node_at m ds o)
    step (ok n) ih = ih n
    step (err e) ih = refl

-- The path that an error would name does not matter to a walk that succeeds.
pub child_of_any :
    (root : VfsNode) (c : Str) (o o' : Str) {n : VfsNode}
    → child_of root c o ≡ ok n
    → child_of root c o' ≡ ok n
unfolding child_of
child_of_any (dir m) c o o' h = ground arith
child_of_any (file b) c o o' h = cc
child_of_any (device b) c o o' h = cc

pub node_at_any :
    (root : VfsNode) (cs : List Str) (o o' : Str) {n : VfsNode}
    → node_at root cs o ≡ ok n
    → node_at root cs o' ≡ ok n
unfolding node_at
node_at_any root [] o o' h = h
node_at_any root (c ∷ cs) o o' h =
    let (child, p, q) = >>=-eq-ok (child_of root c o) _ h in
    rw (child_of_any root c o o' p, ◌>>=◌) (node_at_any child cs o o' q)

-- A change that succeeds at the node that the walk finds succeeds as a whole.
pub modify_at-succeeds :
    {A : Type 0} (root : VfsNode) (cs : List Str) (o : Str)
    (change : VfsNode → Result VfsError (VfsNode × A)) (n n' : VfsNode) (a : A)
    → node_at root cs o ≡ ok n
    → change n ≡ ok (n', a)
    → (root' : VfsNode) × (modify_at root cs o change ≡ ok (root', a))
unfolding node_at modify_at
modify_at-succeeds root [] o change n n' a at h = (n', ground (arith))
modify_at-succeeds root (c ∷ cs) o change n n' a at h =
    let (child, p, q) = >>=-eq-ok (child_of root c o) _ at in
    let (child', r) = modify_at-succeeds child cs o change n n' a q h in
    (put_child c child' root, rw (p, ◌>>=◌, r))

-- What the three changes leave under the name.
pub set_in-found :
    (p name : Str) (node n n' : VfsNode) (o : Str)
    → set_in p name node n ≡ ok (n', tt)
    → node_at n' (name ∷ []) o ≡ ok node
unfolding set_in node_at
set_in-found p name node (dir m) n' o h = ground (arith, get-insert name name node m)
set_in-found p name node (file b) n' o h = cc
set_in-found p name node (device k) n' o h = cc

pub mkdir_in-found :
    (path p name : Str) (n n' : VfsNode) (o : Str)
    → mkdir_in path p name n ≡ ok (n', tt)
    → node_at n' (name ∷ []) o ≡ ok (dir end)
unfolding mkdir_in node_at
mkdir_in-found path p name (dir m) n' o h = ground (arith, get-insert name name (dir end) m)
mkdir_in-found path p name (file b) n' o h = cc
mkdir_in-found path p name (device k) n' o h = cc

pub remove_in-found :
    (path p name : Str) (n n' node : VfsNode) (o : Str)
    → remove_in path p name n ≡ ok (n', node)
    → (node_at n (name ∷ []) o ≡ ok node) × (node_at n' (name ∷ []) o ≡ err (not_found o))
unfolding remove_in node_at
remove_in-found path p name (dir m) n' node o h = ground (arith, get-remove name name m)
remove_in-found path p name (file b) n' node o h = cc
remove_in-found path p name (device k) n' node o h = cc

pub remove_in-succeeds :
    (path p name : Str) (n node : VfsNode) (o : Str)
    → node_at n (name ∷ []) o ≡ ok node
    → (n' : VfsNode) × (remove_in path p name n ≡ ok (n', node))
unfolding remove_in node_at
remove_in-succeeds path p name (dir m) node o h = (dir (remove name m), ground (arith, h))
remove_in-succeeds path p name (file b) node o h = cc
remove_in-succeeds path p name (device k) node o h = cc

pub mkdir_in_exists :
    (path p name : Str) (n node : VfsNode) (o : Str)
    → node_at n (name ∷ []) o ≡ ok node
    → mkdir_in path p name n ≡ err (already_exists path)
unfolding mkdir_in node_at
mkdir_in_exists path p name (dir m) node o h = ground (arith, h)
mkdir_in_exists path p name (file b) node o h = cc
mkdir_in_exists path p name (device k) node o h = cc

-- An error at the node found is the error of the whole.
pub modify_at_err :
    {A : Type 0} (root : VfsNode) (cs : List Str) (o : Str)
    (change : VfsNode → Result VfsError (VfsNode × A)) (n : VfsNode) (e : VfsError)
    → node_at root cs o ≡ ok n
    → change n ≡ err e
    → modify_at root cs o change ≡ err e
unfolding node_at modify_at
modify_at_err root [] o change n e at h = ground (arith)
modify_at_err root (c ∷ cs) o change n e at h =
    let (child, p, q) = >>=-eq-ok (child_of root c o) _ at in
    rw (p, ◌>>=◌, modify_at_err child cs o change n e q h) refl
