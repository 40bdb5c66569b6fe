-- ===== src/Daemon/Objects/Subtree.antt =====
-- scanbus-daemon/src/dbus/objects.rs: what `remove_subtree` takes and what it leaves.
use mathlib.Core.List.{reverse, reverse-cons}
use scanbus_service.Common.{
  ◌≡◌, refl, ap, sym, ◌∙◌, Bool, true, false, ◌||◌, ◌&&◌, Option, none, some, List, [], ◌∷◌, ◌++◌,
  Bytes, beq, beq→eq, any, map, filter, filter_keep, filter_drop, arith, Bool-cases, Option-cases,
  inl, inr, if◌then◌else◌,
}
use scanbus_service.Common.Maps.{lookup, remove, lookup-remove}
use scanbus_service.Common.Result.{ok}
use scanbus_service.Daemon.Objects.{
  Zbus, Tree, is_below, descendants, unexport, or_none, matched, take_all, remove_subtree,
}

any-append : (p : Bytes → Bool) (xs ys : List Bytes) → any p (xs ++ ys) ≡ any p xs || any p ys
any-append p [] ys = refl
any-append p (x ∷ xs) ys = ground (arith, any-append p xs ys)

any-reverse : (p : Bytes → Bool) (xs : List Bytes) → any p (reverse xs) ≡ any p xs
any-reverse p [] = refl
any-reverse p (x ∷ xs) =
    ap (any p) (reverse-cons x xs)
    ∙ any-append p (reverse xs) (x ∷ [])
    ∙ ground (arith, any-reverse p xs)

-- A path is among those that pass a test if it passes and is among all.
any-filter :
    (path : Bytes) (p : Bytes → Bool) (xs : List Bytes)
    → any (beq path) (filter p xs) ≡ p path && any (beq path) xs
any-filter path p [] = ground arith
any-filter path p (x ∷ xs) = elim (Bool-cases (p x)) [
  | inl passes ↦ elim (Bool-cases (beq path x)) [
    | inl here ↦
        let passed : p path ≡ true = rw (beq→eq path x here) passes in
        rw (filter_keep p x xs passes, here, passed) refl
    | inr other ↦ rw (filter_keep p x xs passes, other) (any-filter path p xs)
  ]
  | inr fails ↦ elim (Bool-cases (beq path x)) [
    | inl here ↦
        let failed : p path ≡ false = rw (beq→eq path x here) fails in
        rw (filter_drop p x xs fails, any-filter path p xs, failed) refl
    | inr other ↦ rw (filter_drop p x xs fails, other) (any-filter path p xs)
  ]
]

lookup-any :
    (path : Bytes) (tree : Tree) (names : List Bytes)
    → lookup beq path tree ≡ some names
    → any (beq path) (map (λ e. e.0) tree) ≡ true
unfolding lookup
lookup-any path [] names h = absurd (ground arith)
lookup-any path ((k, n) ∷ tree) names h = elim (Bool-cases (beq path k)) [
  | inl here ↦ rw (here) refl
  | inr other ↦ rw (other) (lookup-any path tree names (rw (other) at h))
]

both_none : (b : Bool) → ◌≡◌ {A = Option (List Bytes)} (if b then none else none) none
both_none true = refl
both_none false = refl

-- zbus takes every interface away.
abbrev pub Unexports : Zbus → Type 0
Unexports z = (path name : Bytes) → z.remove_named path name ≡ ok tt

unexport_done :
    (z : Zbus) (path : Bytes) (names : List Bytes) → Unexports z → unexport z path names ≡ ok tt
unexport_done z path [] h = refl
unexport_done z path (name ∷ names) h = rw (unexport, h path name) (unexport_done z path names h)

lookup-take_all :
    (z : Zbus) (path : Bytes) (paths : List Bytes) (tree : Tree)
    → Unexports z
    → lookup beq path (take_all z paths tree).1
      ≡ (if any (beq path) paths then none else lookup beq path tree)
unfolding take_all
lookup-take_all z path [] tree h = refl
lookup-take_all z path (p ∷ paths) tree h =
    rw (take_all, unexport_done z p (or_none (lookup beq p tree)) h)
      (lookup-take_all z path paths (remove p tree) h ∙ ground (arith, lookup-remove path p tree))

-- A path of the tree is matched if it is the root of the subtree or below it.
any-matched :
    (path root : Bytes) (tree : Tree)
    → any (beq path) (matched root tree)
      ≡ (beq root path || is_below root path) && any (beq path) (map (λ e. e.0) tree)
unfolding descendants
any-matched path root tree =
    let keys = map (λ e. e.0) tree in
    any-append (beq path) (filter (beq root) keys) (descendants root tree)
    ∙ ground (arith, any-filter path (beq root) keys, any-filter path (is_below root) keys)

-- A path is taken if it is matched, and one that is not in the tree stays out of it.
taken_or_kept :
    (path root : Bytes) (tree : Tree)
    → (if any (beq path) (matched root tree) then none else lookup beq path tree)
      ≡ (if beq root path || is_below root path then none else lookup beq path tree)
taken_or_kept path root tree = elim (Option-cases (lookup beq path tree)) [
  | inl gone ↦ rw (gone) (
      both_none (any (beq path) (matched root tree))
      ∙ sym (both_none (beq root path || is_below root path)))
  | inr (names, there) ↦
      ap (λ b. if b then none else lookup beq path tree)
        (any-matched path root tree ∙ ground (arith, lookup-any path tree names there))
]

subtree_cases :
    (z : Zbus) (path root : Bytes) (tree : Tree) (paths : List Bytes)
    → matched root tree ≡ paths
    → Unexports z
    → lookup beq path (remove_subtree z root tree).1
      ≡ (if any (beq path) paths then none else lookup beq path tree)
unfolding remove_subtree
subtree_cases z path root tree [] all h = rw (remove_subtree, all) refl
subtree_cases z path root tree (p ∷ paths) all h =
    rw (remove_subtree, all)
      (lookup-take_all z path (reverse (p ∷ paths)) tree h
        ∙ ap (λ b. if b then none else lookup beq path tree) (any-reverse (beq path) (p ∷ paths)))

-- When zbus takes every interface away, `remove_subtree` takes exactly the object and what is below it:
-- every other object keeps its interfaces, one whose path only starts with the same bytes included.
pub lookup-remove_subtree :
    (z : Zbus) (path root : Bytes) (tree : Tree)
    → Unexports z
    → lookup beq path (remove_subtree z root tree).1
      ≡ (if beq root path || is_below root path then none else lookup beq path tree)
lookup-remove_subtree z path root tree h =
    subtree_cases z path root tree (matched root tree) refl h ∙ taken_or_kept path root tree
