-- ===== src/Daemon/Objects.antt =====
-- scanbus-daemon/src/dbus/objects.rs: `ObjectRegistry`, the tree of exported objects. What zbus
-- answers is an argument of the calls that ask it.
pub mod Subtree
use mathlib.Core.List.{reverse}
use scanbus_service.Common.{
  ℕ, Bool, true, false, Option, none, some, List, [], ◌∷◌, ◌++◌, map, Bytes, codes, beq, length,
  filter, strip_prefix,
}
use scanbus_service.Common.Maps.{lookup, insert, remove, text_before}
use scanbus_service.Common.Result.{Result, ok, err}
use scanbus_service.Core.Path.{manager}

-- What an operation of zbus answers: done, or the text of its error.
abbrev pub Answer : Type 0
Answer = Result (Unit {0}) Bytes

-- The errors of `Error` that the objects meet.
pub data Error : Type 0 where
  object_server : (operation path interface source : Bytes) → Error
  already_exported : (path interface : Bytes) → Error
  not_exported : (path : Bytes) → Error
  has_descendants : (path : Bytes) (descendants : ℕ) → Error
  properties_changed : (path source : Bytes) → Error

-- What zbus answers to a call, by the path and the interface or the property.
pub record Zbus : Type 0 where
  pub at : Bytes → Bytes → Result Bool Bytes
  pub remove_named : Bytes → Bytes → Answer
  -- `none` is `InterfaceNotFound`.
  pub interface : Bytes → Bytes → Result (Unit {0}) (Option Bytes)
  pub emit : Bytes → Bytes → Answer

-- The interfaces that are exported at each path, in the order of their names.
abbrev pub Tree : Type 0
Tree = List (Bytes × List Bytes)

abbrev pub with_interface : Bytes → Option (List Bytes) → List Bytes
with_interface name none = name ∷ []
with_interface name (some names) =
    map (λ n. n.0) (insert beq text_before name tt (map (λ n. (n, tt {0})) names))

-- The end of `add`, on what zbus answered.
abbrev pub exported : Result Bool Bytes → Bytes → Bytes → Tree → Result (Unit {0}) Error × Tree
exported (err source) path name tree =
    (err (object_server (codes "exporting") path name source), tree)
exported (ok false) path name tree = (err (already_exported path name), tree)
exported (ok true) path name tree =
    (ok tt, insert beq text_before path (with_interface name (lookup beq path tree)) tree)

-- `ObjectRegistry::add`
unfoldable pub add : Zbus → Bytes → Bytes → Tree → Result (Unit {0}) Error × Tree
add z path name tree = exported (z.at path name) path name tree

abbrev pub found : Bytes → Bytes → Result (Unit {0}) (Option Bytes) → Result (Unit {0}) Error
found path name (ok _) = ok tt
found path name (err none) = err (not_exported path)
found path name (err (some source)) = err (object_server (codes "looking up") path name source)

-- `ObjectRegistry::interface`
abbrev pub interface : Zbus → Bytes → Bytes → Result (Unit {0}) Error
interface z path name = found path name (z.interface path name)

abbrev pub is_below : Bytes → Bytes → Bool
is_below path candidate = elim (strip_prefix (path ++ codes "/") candidate) [
  | none ↦ false
  | some _ ↦ true
]

-- `ObjectRegistry::descendants`
unfoldable pub descendants : Bytes → Tree → List Bytes
descendants path tree = filter (is_below path) (map (λ e. e.0) tree)

-- `ObjectRegistry::unexport`
abbrev pub unexport : Zbus → Bytes → List Bytes → Result (Unit {0}) Error
unexport z path [] = ok tt
unexport z path (name ∷ names) = elim (z.remove_named path name) [
  | err source ↦ err (object_server (codes "unexporting") path name source)
  | ok _ ↦ unexport z path names
]

abbrev pub or_none : Option (List Bytes) → List Bytes
or_none none = []
or_none (some names) = names

-- `objects.remove(&path)` and the unexport that follows it
abbrev pub taken : Zbus → Bytes → Tree → Result (Unit {0}) Error × Tree
taken z path tree = (unexport z path (or_none (lookup beq path tree)), remove path tree)

-- `ObjectRegistry::remove_object`
unfoldable pub remove_object : Zbus → Bytes → Tree → Result (Unit {0}) Error × Tree
remove_object z path tree = elim (lookup beq path tree) [
  | none ↦ (err (not_exported path), tree)
  | some _ ↦ elim (descendants path tree) [
    | [] ↦ taken z path tree
    | d ∷ ds ↦ (err (has_descendants path (length (d ∷ ds))), tree)
  ]
]

-- The loop of `remove_subtree`, which the first refusal ends.
unfoldable pub take_all : Zbus → List Bytes → Tree → Result (Unit {0}) Error × Tree
take_all z [] tree = (ok tt, tree)
take_all z (path ∷ paths) tree =
    let rest = take_all z paths (remove path tree) in
    elim (unexport z path (or_none (lookup beq path tree))) [
      | err e ↦ (err e, remove path tree)
      | ok _ ↦ rest
    ]

abbrev pub matched : Bytes → Tree → List Bytes
matched root tree = filter (beq root) (map (λ e. e.0) tree) ++ descendants root tree

-- `ObjectRegistry::remove_subtree`
unfoldable pub remove_subtree : Zbus → Bytes → Tree → Result (Unit {0}) Error × Tree
remove_subtree z root tree = elim (matched root tree) [
  | [] ↦ (err (not_exported root), tree)
  | path ∷ paths ↦ take_all z (reverse (path ∷ paths)) tree
]

-- `ObjectRegistry::new`
abbrev pub new_tree : Zbus → Result (Unit {0}) Error × Tree
new_tree z = add z manager (codes "org.freedesktop.DBus.ObjectManager") []

-- The paths that `ObjectRegistry::shutdown` unexports, in their order; the tree is empty after it.
abbrev pub shutdown : Tree → List Bytes × Tree
shutdown tree = (reverse (map (λ e. e.0) tree), [])
