-- ===== src/Daemon/Scanners/Takeover.antt =====
-- scanbus-daemon/src/scanners.rs: who owns an address that discovery and a pairing both claim.
use scanbus_service.Common.{
  ◌≡◌, refl, ap, ◌∙◌, ℕ, Bool, true, false, Option, none, some, List, [], ◌∷◌, Bytes, beq, beq→eq,
  any, arith, Bool-cases, Option-cases, inl, inr,
}
use scanbus_service.Common.Maps.{
  lookup, insert, text_before, lookup-put, lookup-put_self, lookup-remove, lookup-remove_self,
}
use scanbus_service.Common.Result.{Result, ok, err}
use scanbus_service.Core.Id.{ScannerId}
use scanbus_service.Core.Model.{ButtonInfo, ScannerInfo}
use scanbus_service.Core.Path as ObjectPath
use scanbus_service.Daemon.Objects.{Error, Zbus, Tree, add, remove_subtree}
use scanbus_service.Daemon.Scanners.{
  Entry, Registry, Std, find_entry, observe, publish, add_each, add_buttons, tracked, with_keys,
  address_of, sighted, put_exported, new_scanner1, scanner_interface, button_interface,
}
use scanbus_service.Daemon.Scanners.Lifetime.{
  is_discovered, transient, drop_entry, sweep, end_discovery, unseen,
}
use scanbus_service.Daemon.Scanners.Calls.{Call, run, new_registry}
use scanbus_service.Daemon.Scanners.Index.{IsWell, address_at}
use scanbus_service.Daemon.Scanners.Run.{run-IsWell, new_registry-IsWell}
use scanbus_service.Daemon.Scanners.Sessions.{
  end_discovery_found, any-transient, find_entry-drop_entry,
}

-- A sighting under an unknown id at an address that the index has changes nothing, whatever calls came
-- before: the scanner that the index names for the address is there, and the address is its own.
pub observe_duplicate :
    (std : Std) (calls : List (Zbus × Call)) (tree : Tree) (z : Zbus) (rank : ℕ) (backend : Bytes)
    (info : ScannerInfo) (owner : ScannerId)
    → find_entry info.id (run std calls (new_registry tree)) ≡ none
    → lookup beq (address_of std info) (run std calls (new_registry tree)).owners ≡ some owner
    → (observe std z rank backend info (run std calls (new_registry tree))
        ≡ (ok tt, run std calls (new_registry tree)))
      × (address_at owner.value (run std calls (new_registry tree)).entries
          ≡ some (address_of std info))
unfolding observe
observe_duplicate std calls tree z rank backend info owner fresh taken =
    let r = run std calls (new_registry tree) in
    let (sorted, owned) = run-IsWell std calls (new_registry tree) (new_registry-IsWell tree) in
    let claimed = owned (address_of std info) owner taken in
    elim (Option-cases (find_entry owner r)) [
      | inl gone ↦
          let nothing : ◌≡◌ {A = Option Bytes} none (some (address_of std info)) =
            rw (gone) at claimed in
          absurd (cc)
      | inr (winner, there) ↦ (rw (observe, fresh, taken, there) refl, claimed)
    ]

-- zbus takes every export.
abbrev pub Exports : Zbus → Type 0
Exports z = (path name : Bytes) → z.at path name ≡ ok true

add_exported :
    (z : Zbus) (path name : Bytes) (tree : Tree) → Exports z → (add z path name tree).0 ≡ ok tt
unfolding add
add_exported z path name tree h = rw (h path name) refl

add_each_exported :
    (z : Zbus) (id : ScannerId) (buttons : List ButtonInfo) (tree : Tree)
    → Exports z
    → (add_each z id buttons tree).0 ≡ ok tt
unfolding add_each
add_each_exported z id [] tree h = refl
add_each_exported z id (button ∷ buttons) tree h =
    rw (add_each, add_exported z (ObjectPath.button id button.index) button_interface tree h)
      (add_each_exported z id buttons _ h)

tracked_ok :
    (z : Zbus) (info : ScannerInfo) (entry : Entry) (answer : Result (Unit {0}) Error × Tree)
    (r : Registry)
    → answer.0 ≡ ok tt
    → ((tracked z info entry answer r).0 ≡ ok tt)
      × ((tracked z info entry answer r).1.entries
          ≡ insert beq text_before info.id.value entry r.entries)
      × ((tracked z info entry answer r).1.owners
          ≡ insert beq text_before entry.address info.id r.owners)
tracked_ok z info entry (err e, tree) r h = absurd (ground arith)
tracked_ok z info entry (ok _, tree) r h = (refl, refl, refl)

with_keys_ok :
    (z : Zbus) (info : ScannerInfo) (entry : Entry) (paired : Bool)
    (answer : Result (Unit {0}) Error × Tree) (r : Registry)
    → Exports z
    → answer.0 ≡ ok tt
    → ((with_keys z info entry paired answer r).0 ≡ ok tt)
      × ((with_keys z info entry paired answer r).1.entries
          ≡ insert beq text_before info.id.value entry r.entries)
      × ((with_keys z info entry paired answer r).1.owners
          ≡ insert beq text_before entry.address info.id r.owners)
with_keys_ok z info entry paired (err e, tree) r h added = absurd (ground arith)
with_keys_ok z info entry paired (ok _, tree) r h added =
    tracked_ok z info entry (add_buttons z info 0 tree)
      (put_exported info.id (new_scanner1 info paired) r) (add_each_exported z info.id _ tree h)

-- What `publish` leaves of the map and the index when every export succeeds.
pub publish_exported :
    (z : Zbus) (info : ScannerInfo) (entry : Entry) (paired : Bool) (r : Registry)
    → Exports z
    → ((publish z info entry paired r).0 ≡ ok tt)
      × ((publish z info entry paired r).1.entries
          ≡ insert beq text_before info.id.value entry r.entries)
      × ((publish z info entry paired r).1.owners
          ≡ insert beq text_before entry.address info.id r.owners)
unfolding publish
publish_exported z info entry paired r h =
    with_keys_ok z info entry paired _ r h
      (add_exported z (ObjectPath.scanner info.id) scanner_interface r.tree h)

owner_stays_none :
    (z : Zbus) (a : Bytes) (keys : List Bytes) (r : Registry)
    → lookup beq a r.owners ≡ none
    → lookup beq a (sweep z keys r).1.owners ≡ none
unfolding sweep
owner_stays_none z a [] r h = h
owner_stays_none z a (key ∷ keys) r h =
    let other : ScannerId = record { value = key } in
    let s = record r { tree = (remove_subtree z (ObjectPath.scanner other) r.tree).1 } in
    owner_stays_none z a keys (drop_entry other (find_entry other s) s)
      (elim (Option-cases (find_entry other s)) [
        | inl gone ↦ rw (gone) h
        | inr (entry, found) ↦
            rw (found, lookup-remove a entry.address r.owners) (ground (arith, h))
      ])

-- The sweep frees the address of every scanner that it takes.
sweep_frees :
    (z : Zbus) (id : ScannerId) (entry : Entry) (keys : List Bytes) (r : Registry)
    → find_entry id r ≡ some entry
    → any (beq id.value) keys ≡ true
    → lookup beq entry.address (sweep z keys r).1.owners ≡ none
unfolding sweep
sweep_frees z id entry [] r found listed = absurd (cc)
sweep_frees z id entry (key ∷ keys) r found listed =
    let other : ScannerId = record { value = key } in
    let s = record r { tree = (remove_subtree z (ObjectPath.scanner other) r.tree).1 } in
    elim (Bool-cases (beq id.value key)) [
      | inl here ↦
          let found : find_entry other s ≡ some entry = rw (← beq→eq id.value key here) found in
          owner_stays_none z entry.address keys (drop_entry other (find_entry other s) s)
            (rw (found) (lookup-remove_self entry.address r.owners))
      | inr differs ↦
          let kept : find_entry id (drop_entry other (find_entry other s) s) ≡ some entry =
            rw (find_entry-drop_entry id other s, differs) found in
          sweep_frees z id entry keys (drop_entry other (find_entry other s) s) kept
            (rw (differs) at listed)
    ]

-- What a sighting of an unknown device at a free address leaves of the map, when zbus takes every export.
observe_free :
    (std : Std) (z : Zbus) (rank : ℕ) (backend : Bytes) (info : ScannerInfo) (r : Registry)
    → Exports z
    → find_entry info.id r ≡ none
    → lookup beq (address_of std info) r.owners ≡ none
    → (observe std z rank backend info r).1.entries
      ≡ insert beq text_before info.id.value (sighted std rank backend info) r.entries
unfolding observe
observe_free std z rank backend info r h fresh free =
    let (done, listed, indexed) =
      publish_exported z info (sighted std rank backend info) false r h in
    rw (observe, fresh, free) listed

-- The address of a scanner that a session takes is free after it.
end_discovery_frees :
    (z : Zbus) (id : ScannerId) (entry : Entry) (r : Registry)
    → IsWell r
    → find_entry id r ≡ some entry
    → is_discovered entry.origin ≡ true
    → lookup beq entry.address (end_discovery z r).1.owners ≡ none
unfolding end_discovery
end_discovery_frees z id entry r (sorted, owned) found goes =
    sweep_frees z id entry (transient r.entries) r found
      (rw (any-transient id.value r.entries sorted, found) goes)

-- A new entry claims its address, and one of another id keeps its own.
both_claim :
    (key new : Bytes) (old entry : Entry) (entries : List (Bytes × Entry))
    → lookup beq key entries ≡ some old
    → lookup beq new entries ≡ none
    → let s = insert beq text_before new entry entries in
      (address_at key s ≡ some old.address) × (address_at new s ≡ some entry.address)
both_claim key new old entry entries there fresh = elim (Bool-cases (beq key new)) [
  | inl same ↦
      let gone : lookup beq key entries ≡ none = rw (beq→eq key new same) fresh in absurd (cc)
  | inr differs ↦ (
    rw (lookup-put key new entry entries, differs, there) refl,
    rw (lookup-put_self new entry entries) refl,
  )
]

-- The end of a session takes the address of each of its own scanners off the index, even if a scanner
-- that stays stands at that address too: when zbus takes every export, the next sighting there under an
-- unknown id is entered beside the one that stays, and both claim the address.
pub end_discovery-observe :
    (std : Std) (calls : List (Zbus × Call)) (tree : Tree) (z : Zbus) (rank : ℕ) (backend : Bytes)
    (info : ScannerInfo) (seen paired : ScannerId) (passing staying : Entry)
    → Exports z
    → find_entry seen (run std calls (new_registry tree)) ≡ some passing
    → find_entry paired (run std calls (new_registry tree)) ≡ some staying
    → find_entry info.id (run std calls (new_registry tree)) ≡ none
    → is_discovered passing.origin ≡ true
    → is_discovered staying.origin ≡ false
    → passing.address ≡ staying.address
    → address_of std info ≡ staying.address
    → let s =
        (observe std z rank backend info
          (end_discovery z (run std calls (new_registry tree))).1).1 in
      (address_at paired.value s.entries ≡ some staying.address)
      × (address_at info.id.value s.entries ≡ some staying.address)
end_discovery-observe std calls tree z rank backend info seen paired passing staying h found there
      unknown goes stays same here =
    let r = run std calls (new_registry tree) in
    let well = run-IsWell std calls (new_registry tree) (new_registry-IsWell tree) in
    let e = (end_discovery z r).1 in
    let claimed : find_entry paired e ≡ some (unseen staying) =
      rw (end_discovery_found z paired r well, there, stays) refl in
    let fresh : find_entry info.id e ≡ none =
      rw (end_discovery_found z info.id r well, unknown) refl in
    let free : lookup beq (address_of std info) e.owners ≡ none =
      rw (here, ← same) (end_discovery_frees z seen passing r well found goes) in
    let (first, second) =
      both_claim paired.value info.id.value (unseen staying) (sighted std rank backend info)
        e.entries claimed fresh in
    rw (observe_free std z rank backend info e h fresh free) (first, second ∙ ap some here)
