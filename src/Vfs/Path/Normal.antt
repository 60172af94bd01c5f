-- ===== src/Vfs/Path/Normal.antt =====
-- The laws of the path utilities: what a normalized path is, and how it is taken apart.
use wasm_shell.Base.{
  ℕ, ◌≡◌, ◌≢◌, refl, sym, ap, ◌∙◌, none, some, List, [], ◌∷◌, ◌++◌, append-nil, append_assoc, arith,
  Str, str_dec, str_eq, if◌then◌else◌, split, join, trim_start_matches, starts_with, ok, Lacks, All,
  All-append, All-init, Bool-cases, inl, inr, split-append_sep, split_lacking, split-Lacks,
}
use wasm_shell.Vfs.Path.{
  slash, dot, dot_dot, push_segment, collapse, render_path, normalize_path, resolve_path, non_empty,
  path_components, rsplit_once, parent_or_root, split_parent,
}

-- A file name: not empty, not `.` or `..`, and without `/`.
pub record IsPlain (s : Str) : Type 0 where
  pub nonempty : s ≢ []
  pub no_dot : s ≢ dot
  pub no_dot_dot : s ≢ dot_dot
  pub no_slash : Lacks b'/' s

-- The components of the normal form of a path.
unfoldable pub segments : Str → List Str
unfolding collapse
segments path = collapse [] (split b'/' path)

module _ (parts : List Str) (seg : Str) where
  push_segment-IsPlain : Lacks b'/' seg → All IsPlain parts → All IsPlain (push_segment parts seg)
  unfolding push_segment
  push_segment-IsPlain l a = ground (
    arith,
    All-init IsPlain parts a,
    λ (n : seg ≢ []) (d : seg ≢ dot) (dd : seg ≢ dot_dot).
        All-append IsPlain parts (seg ∷ []) a
          (record { nonempty = n; no_dot = d; no_dot_dot = dd; no_slash = l }, tt),
  )

  push_segment_plain : IsPlain seg → push_segment parts seg ≡ parts ++ seg ∷ []
  unfolding push_segment
  push_segment_plain h = ground arith

collapse-IsPlain :
    (parts segs : List Str)
    → All (Lacks b'/') segs
    → All IsPlain parts
    → All IsPlain (collapse parts segs)
unfolding collapse
collapse-IsPlain parts [] l a = a
collapse-IsPlain parts (seg ∷ segs) l a =
    collapse-IsPlain (push_segment parts seg) segs l.1 (push_segment-IsPlain parts seg l.0 a)

pub segments-IsPlain : (path : Str) → All IsPlain (segments path)
unfolding segments
segments-IsPlain path = collapse-IsPlain [] (split b'/' path) (split-Lacks b'/' path) tt

collapse_plain : (parts segs : List Str) → All IsPlain segs → collapse parts segs ≡ parts ++ segs
unfolding collapse
collapse_plain parts [] a = sym (append-nil parts)
collapse_plain parts (seg ∷ segs) a =
    rw (push_segment_plain parts seg a.0)
      (collapse_plain (parts ++ seg ∷ []) segs a.1 ∙ append_assoc parts (seg ∷ []) segs)

-- The components, each behind a slash.
pub slashes : List Str → Str
slashes [] = []
slashes (s ∷ ss) = b'/' ∷ (s ++ slashes ss)

slashes-join : (s : Str) (ss : List Str) → b'/' ∷ join slash (s ∷ ss) ≡ slashes (s ∷ ss)
unfolding slashes join
slashes-join s [] = rw append-nil
slashes-join s (t ∷ ts) = rw (← slashes-join t ts) refl

split-slashes :
    (s : Str) (ss : List Str) → All IsPlain (s ∷ ss) → split b'/' (s ++ slashes ss) ≡ s ∷ ss
unfolding slashes
split-slashes s [] a = rw append-nil (split_lacking b'/' s a.0.no_slash)
split-slashes s (t ∷ ts) a =
    split-append_sep b'/' s (t ++ slashes ts) a.0.no_slash
    ∙ ap (λ u. s ∷ u) (split-slashes t ts a.1)

pub render_path-slashes :
    (s : Str) (ss : List Str) → render_path (s ∷ ss) ≡ b'/' ∷ (s ++ slashes ss)
unfolding render_path slashes
render_path-slashes s ss = slashes-join s ss

-- The components of a rendered path are those that were rendered.
pub segments-render_path : (segs : List Str) → All IsPlain segs → segments (render_path segs) ≡ segs
unfolding segments str_dec
segments-render_path [] a = unfold render_path split collapse push_segment str_dec in refl
segments-render_path (s ∷ ss) a =
    rw (render_path-slashes, split-append_sep b'/' [] (s ++ slashes ss) tt, split-slashes s ss a)
      (collapse_plain [] (s ∷ ss) a)

pub normalize_path-segments : (path : Str) → normalize_path path ≡ render_path (segments path)
unfolding normalize_path segments
normalize_path-segments path = refl

-- What the in-memory tree is given: a path of plain components.
pub normalize_path-render_path :
    (segs : List Str) → All IsPlain segs → normalize_path (render_path segs) ≡ render_path segs
normalize_path-render_path segs a =
    normalize_path-segments (render_path segs) ∙ ap render_path (segments-render_path segs a)

-- Normalizing a path a second time changes nothing.
pub normalize_path_idem : (path : Str) → normalize_path (normalize_path path) ≡ normalize_path path
normalize_path_idem path =
    rw (normalize_path-segments path)
      (normalize_path-render_path (segments path) (segments-IsPlain path))

trim-slashes :
    (s : Str) (ss : List Str)
    → IsPlain s
    → trim_start_matches b'/' (b'/' ∷ (s ++ slashes ss)) ≡ s ++ slashes ss
unfolding trim_start_matches
trim-slashes [] ss h = absurd (h.nonempty refl)
trim-slashes (c ∷ s) ss h = ground arith

non_empty_plain : (ss : List Str) → All IsPlain ss → non_empty ss ≡ ss
unfolding non_empty
non_empty_plain [] a = refl
non_empty_plain ([] ∷ ss) a = absurd (a.0.nonempty refl)
non_empty_plain ((c ∷ s) ∷ ss) a = ap (λ u. (c ∷ s) ∷ u) (non_empty_plain ss a.1)

pub path_components-render_path :
    (segs : List Str) → All IsPlain segs → path_components (render_path segs) ≡ segs
unfolding path_components
path_components-render_path [] a = unfold render_path split trim_start_matches in refl
path_components-render_path (s ∷ ss) a =
    rw (render_path-slashes, trim-slashes s ss a.0, split-slashes s ss a)
      (non_empty_plain (s ∷ ss) a)

-- The pieces of `split_parent`.

rsplit_once_lacking : (c : ℕ) (s : Str) → Lacks c s → rsplit_once c s ≡ none
unfolding rsplit_once
rsplit_once_lacking c [] l = refl
rsplit_once_lacking c (x ∷ s) l = rw (rsplit_once_lacking c s l.1) (ground arith)

rsplit_once-append : (c : ℕ) (a b : Str) → Lacks c b → rsplit_once c (a ++ c ∷ b) ≡ some (a, b)
unfolding rsplit_once
rsplit_once-append c [] b l = rw (rsplit_once_lacking c b l) (ground arith)
rsplit_once-append c (x ∷ a) b l = rw (rsplit_once-append c a b l)

slashes-append : (ss ts : List Str) → slashes (ss ++ ts) ≡ slashes ss ++ slashes ts
unfolding slashes
slashes-append [] ts = refl
slashes-append (s ∷ ss) ts = rw (slashes-append ss ts, append_assoc)

render_path-append_one :
    (segs : List Str) (name : Str) → render_path (segs ++ name ∷ []) ≡ slashes segs ++ b'/' ∷ name
unfolding slashes
render_path-append_one [] name = rw (render_path-slashes, append-nil)
render_path-append_one (s ∷ ss) name =
    rw (render_path-slashes, slashes-append, append-nil, append_assoc)

parent_or_root-slashes : (segs : List Str) → parent_or_root (slashes segs) ≡ render_path segs
unfolding parent_or_root slashes
parent_or_root-slashes [] = unfold render_path in refl
parent_or_root-slashes (s ∷ ss) = sym (render_path-slashes s ss)

append_one-ne-slash : (s name : Str) → name ≢ [] → s ++ b'/' ∷ name ≢ slash
append_one-ne-slash [] name n p = ground arith
append_one-ne-slash (x ∷ []) name n p = ground arith
append_one-ne-slash (x ∷ (y ∷ s)) name n p = ground arith

-- The path of some components and a plain one behind them is taken apart into the path of the components and
-- the last one.
pub split_parent-render_path :
    (segs : List Str) (name : Str)
    → IsPlain name
    → split_parent (render_path (segs ++ name ∷ [])) ≡ ok (render_path segs, name)
unfolding split_parent
split_parent-render_path segs name h = rw (render_path-append_one segs name) (
    ground (
      arith,
      append_one-ne-slash (slashes segs) name h.nonempty,
      rsplit_once-append b'/' (slashes segs) name h.no_slash,
      parent_or_root-slashes segs,
    ))

-- Whatever the working directory, a resolved path is the rendering of a list of plain components: none is
-- empty, `.` or `..`, or holds a slash.
pub resolve_path-IsPlain :
    (cwd path : Str)
    → (segs : List Str) × All IsPlain segs × (resolve_path cwd path ≡ render_path segs)
unfolding resolve_path
resolve_path-IsPlain cwd path = elim (Bool-cases (starts_with path slash)) [
  | inl e ↦ (segments path, segments-IsPlain path, rw e (normalize_path-segments path))
  | inr e ↦ (
    segments (cwd ++ (b'/' ∷ path)),
    segments-IsPlain _,
    rw e (normalize_path-segments (cwd ++ (b'/' ∷ path))),
  )
]

-- The walk for a normalized path goes by its segments.
pub path_components-normalize_path :
    (path : Str) → path_components (normalize_path path) ≡ segments path
path_components-normalize_path path =
    rw (normalize_path-segments path)
      (path_components-render_path (segments path) (segments-IsPlain path))

pub render_path-append_one-ne :
    (segs : List Str) (name : Str) → IsPlain name → render_path (segs ++ name ∷ []) ≢ slash
render_path-append_one-ne segs name h =
    rw (render_path-append_one segs name) (append_one-ne-slash (slashes segs) name h.nonempty)

pub render_path-nil : render_path [] ≡ slash
unfolding render_path
render_path-nil = refl

-- One more component at the end of a rendered path.
pub render_path-extend :
    (segs : List Str) (name : Str)
    → All IsPlain segs
    → (if str_eq (render_path segs) slash
        then slash ++ name
        else render_path segs ++ (slash ++ name))
      ≡ render_path (segs ++ name ∷ [])
render_path-extend [] name a =
    rw (render_path-nil, render_path-append_one [] name) (unfold slashes in ground arith)
render_path-extend (s ∷ ss) name a = rw (render_path-append_one (s ∷ ss) name) (
    ground (arith, render_path-slashes s ss, not_slash s (slashes ss) a.0.nonempty, render_path-eq))
  where
    not_slash : (s t : Str) → s ≢ [] → b'/' ∷ (s ++ t) ≢ slash
    not_slash [] t n p = n refl
    not_slash (c ∷ s) t n p = ground arith

    render_path-eq : render_path (s ∷ ss) ≡ slashes (s ∷ ss)
    render_path-eq = unfold slashes in render_path-slashes s ss
