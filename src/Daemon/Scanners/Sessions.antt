-- ===== src/Daemon/Scanners/Sessions.antt =====
-- scanbus-daemon/src/scanners.rs: what the end of a discovery session and an unpairing leave.
use scanbus_service.Common.{
  ◌≡◌, refl, ◌∙◌, Bool, false, Option, none, some, List, [], ◌∷◌, Bytes, beq, beq→eq, any, arith,
  Bool-cases, Option-cases, inl, inr, if◌then◌else◌,
}
use scanbus_service.Common.Maps.{lookup, lookup-remove, lookup-map_values}
use scanbus_service.Common.Maps.Order.{IsAbove, IsSorted, ahead}
use scanbus_service.Core.Id.{ScannerId}
use scanbus_service.Core.Path as ObjectPath
use scanbus_service.Daemon.Objects.{Zbus, Tree, remove_subtree}
use scanbus_service.Daemon.Scanners.{Entry, Registry, Std, find_entry}
use scanbus_service.Daemon.Scanners.Lifetime.{
  is_discovered, transient, drop_entry, sweep, unseen, end_discovery,
}
use scanbus_service.Daemon.Scanners.Calls.{Call, run, new_registry}
use scanbus_service.Daemon.Scanners.Index.{IsWell}
use scanbus_service.Daemon.Scanners.Run.{run-IsWell, new_registry-IsWell}

-- What a session leaves of an entry: nothing if only the session had it, and else all but the mark
-- that the session saw it.
abbrev pub survivor : Option Entry → Option Entry
survivor none = none
survivor (some entry) = if is_discovered entry.origin then none else some (unseen entry)

abbrev is_transient : Option Entry → Bool
is_transient none = false
is_transient (some entry) = is_discovered entry.origin

transient-IsAbove :
    (key : Bytes) (entries : List (Bytes × Entry))
    → IsAbove key entries
    → any (beq key) (transient entries) ≡ false
unfolding transient
transient-IsAbove key [] h = refl
transient-IsAbove key ((k, e) ∷ entries) (b, h) = elim (Bool-cases (is_discovered e.origin)) [
  | inl passing ↦ rw (passing) (rw (ahead key k b) (transient-IsAbove key entries h))
  | inr staying ↦ rw (staying) (transient-IsAbove key entries h)
]

pub any-transient :
    (key : Bytes) (entries : List (Bytes × Entry))
    → IsSorted entries
    → any (beq key) (transient entries) ≡ is_transient (lookup beq key entries)
unfolding transient lookup
any-transient key [] h = refl
any-transient key ((k, e) ∷ entries) (a, h) = elim (Bool-cases (beq key k)) [
  | inl here ↦ elim (Bool-cases (is_discovered e.origin)) [
    | inl passing ↦ rw (here, passing, transient, here) refl
    | inr staying ↦
        let behind : any (beq key) (transient entries) ≡ false =
          rw (beq→eq key k here) (transient-IsAbove k entries a) in
        rw (staying, here, staying) behind
  ]
  | inr other ↦ elim (Bool-cases (is_discovered e.origin)) [
    | inl passing ↦ rw (other, passing) (rw (other) (any-transient key entries h))
    | inr staying ↦ rw (other, staying) (any-transient key entries h)
  ]
]

pub find_entry-drop_entry :
    (id other : ScannerId) (r : Registry)
    → find_entry id (drop_entry other (find_entry other r) r)
      ≡ (if beq id.value other.value then none else find_entry id r)
find_entry-drop_entry id other r = elim (Option-cases (find_entry other r)) [
  | inr (entry, found) ↦ rw (found) (lookup-remove id.value other.value r.entries)
  | inl gone ↦ elim (Bool-cases (beq id.value other.value)) [
    | inl same ↦ rw (gone, same, beq→eq id.value other.value same) gone
    | inr differs ↦ rw (gone, differs) refl
  ]
]

find_entry-sweep :
    (z : Zbus) (keys : List Bytes) (id : ScannerId) (r : Registry)
    → find_entry id (sweep z keys r).1 ≡ (if any (beq id.value) keys then none else find_entry id r)
unfolding sweep
find_entry-sweep z [] id r = refl
find_entry-sweep z (key ∷ keys) id r =
    let other : ScannerId = record { value = key } in
    let s = record r { tree = (remove_subtree z (ObjectPath.scanner other) r.tree).1 } in
    find_entry-sweep z keys id (drop_entry other (find_entry other s) s)
    ∙ ground (arith, find_entry-drop_entry id other s)

-- A session that ends takes exactly the entries that only it had, whatever zbus answers.
pub end_discovery_found :
    (z : Zbus) (id : ScannerId) (r : Registry)
    → IsWell r
    → find_entry id (end_discovery z r).1 ≡ survivor (find_entry id r)
unfolding end_discovery
end_discovery_found z id r (sorted, owned) =
    rw
      (
        lookup-map_values unseen id.value (sweep z (transient r.entries) r).1.entries,
        find_entry-sweep z (transient r.entries) id r,
        any-transient id.value r.entries sorted,
      )
      (elim (Option-cases (find_entry id r)) [
        | inl gone ↦ rw (gone) refl
        | inr (entry, found) ↦ elim (Bool-cases (is_discovered entry.origin)) [
          | inl passing ↦ rw (found, passing) refl
          | inr staying ↦ rw (found, staying) refl
        ]
      ])

-- The end of a session takes exactly the scanners that only discovery had, and leaves of the others
-- all but the mark that the session saw them, whatever calls came before and whatever zbus answers.
pub end_discovery-run :
    (std : Std) (calls : List (Zbus × Call)) (tree : Tree) (z : Zbus) (id : ScannerId)
    → find_entry id (end_discovery z (run std calls (new_registry tree))).1
      ≡ survivor (find_entry id (run std calls (new_registry tree)))
end_discovery-run std calls tree z id =
    end_discovery_found z id (run std calls (new_registry tree))
      (run-IsWell std calls (new_registry tree) (new_registry-IsWell tree))
