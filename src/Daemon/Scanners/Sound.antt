-- ===== src/Daemon/Scanners/Sound.antt =====
-- scanbus-daemon/src/scanners.rs: every call keeps the index, so none looks up an owner in vain.
use scanbus_service.Common.{
  ◌≡◌, refl, ℕ, Bool, true, false, none, some, Bytes, beq, beq→eq, Bool-cases, Option-cases, inl,
  inr, ltb, ◌==◌,
}
use scanbus_service.Common.Maps.{lookup, lookup-put_self}
use scanbus_service.Common.Result.{Result, ok, err}
use scanbus_service.Core.Id.{ScannerId}
use scanbus_service.Core.Model.{ScannerInfo, button_count}
use scanbus_service.Daemon.Objects.{Answer, Error, Zbus, Tree}
use scanbus_service.Daemon.Scanners.{
  Entry, Scanner1, Registry, Std, find_entry, put_entry, scanner_at, same_info, sync_buttons,
  add_buttons, publish, with_keys, tracked, updated, settled, moved, address_of, update_existing,
  observe, sighted, put_exported, new_scanner1,
}
use scanbus_service.Daemon.Scanners.Index.{
  IsWell, put_same-IsIndexed, put_new-IsIndexed, put_moved-IsIndexed,
}

-- Neither the entries nor the index change.
abbrev pub IsKept : Registry → Registry → Type 0
IsKept r s = (s.entries ≡ r.entries) × (s.owners ≡ r.owners)

pub kept-IsWell : (r s : Registry) → IsKept r s → IsWell r → IsWell s
kept-IsWell r s (he, ho) h = rw (he, ho) h

pub sync_buttons-IsKept :
    (z : Zbus) (previous : ℕ) (info : ScannerInfo) (r : Registry)
    → IsKept r (sync_buttons z previous info r)
unfolding sync_buttons
sync_buttons-IsKept z previous info r =
    elim (Bool-cases (button_count info.capabilities == previous)) [
      | inl same ↦ rw (same) (refl, refl)
      | inr differs ↦ elim (Bool-cases (ltb previous (button_count info.capabilities))) [
        | inl more ↦ rw (differs, more) (refl, refl)
        | inr fewer ↦ rw (differs, fewer) (refl, refl)
      ]
    ]

tracked-IsWell :
    (z : Zbus) (info : ScannerInfo) (entry : Entry) (answer : Result (Unit {0}) Error × Tree)
    (r : Registry)
    → IsWell r
    → find_entry info.id r ≡ none
    → IsWell (tracked z info entry answer r).1
tracked-IsWell z info entry (err e, tree) r h fresh = h
tracked-IsWell z info entry (ok _, tree) r h fresh =
    put_new-IsIndexed info.id entry r.entries r.owners h fresh

with_keys-IsWell :
    (z : Zbus) (info : ScannerInfo) (entry : Entry) (paired : Bool)
    (answer : Result (Unit {0}) Error × Tree) (r : Registry)
    → IsWell r
    → find_entry info.id r ≡ none
    → IsWell (with_keys z info entry paired answer r).1
with_keys-IsWell z info entry paired (err e, tree) r h fresh = h
with_keys-IsWell z info entry paired (ok _, tree) r h fresh =
    tracked-IsWell z info entry (add_buttons z info 0 tree)
      (put_exported info.id (new_scanner1 info paired) r) h fresh

pub publish-IsWell :
    (z : Zbus) (info : ScannerInfo) (entry : Entry) (paired : Bool) (r : Registry)
    → IsWell r
    → find_entry info.id r ≡ none
    → IsWell (publish z info entry paired r).1
unfolding publish
publish-IsWell z info entry paired r h fresh = with_keys-IsWell z info entry paired _ r h fresh

-- An entry that is changed in place, its address apart.
pub put_entry-IsWell :
    (id : ScannerId) (old entry : Entry) (r : Registry)
    → IsWell r
    → find_entry id r ≡ some old
    → old.address ≡ entry.address
    → IsWell (put_entry id entry r)
put_entry-IsWell id old entry r h found same =
    put_same-IsIndexed id.value old entry r.entries r.owners h found same

-- The entry and its address move together.
moved-IsWell :
    (id : ScannerId) (old entry : Entry) (r : Registry)
    → IsWell r
    → find_entry id r ≡ some old
    → IsWell (put_entry id entry (moved old.address entry.address id r))
moved-IsWell id old entry r h found = elim (Bool-cases (beq old.address entry.address)) [
  | inl same ↦
      rw (same) (put_entry-IsWell id old entry r h found (beq→eq old.address entry.address same))
  | inr differs ↦ rw (differs) (put_moved-IsIndexed id old entry r.entries r.owners h found)
]

module _ (std : Std) where
  settled-IsWell :
      (z : Zbus) (info : ScannerInfo) (address : Bytes) (old entry : Entry) (announced : Answer)
      (r : Registry)
      → IsWell r
      → find_entry info.id r ≡ some old
      → old.address ≡ entry.address
      → IsWell (settled std z info address entry announced r).1
  settled-IsWell z info address old entry (err source) r h found same = h
  settled-IsWell z info address old entry (ok _) r h found same =
      let s = sync_buttons z (button_count entry.info.capabilities) info r in
      let (he, ho) = sync_buttons-IsKept z (button_count entry.info.capabilities) info r in
      let found : find_entry info.id s ≡ some old = rw (he) found in
      let settled : Entry = record entry { discovered = true; address = address; info = info } in
      rw (← same) (moved-IsWell info.id old settled s (kept-IsWell r s (he, ho) h) found)

  updated-IsWell :
      (z : Zbus) (info : ScannerInfo) (address : Bytes) (old entry : Entry)
      (object : Result Scanner1 Error) (r : Registry)
      → IsWell r
      → find_entry info.id r ≡ some old
      → old.address ≡ entry.address
      → IsWell (updated std z info address entry object r).1
  updated-IsWell z info address old entry (err e) r h found same = h
  updated-IsWell z info address old entry (ok object) r h found same =
      settled-IsWell z info address old entry _ (put_exported info.id _ r) h found same

  update_existing-IsWell :
      (z : Zbus) (info : ScannerInfo) (address : Bytes) (entry : Entry) (r : Registry)
      → IsWell r
      → find_entry info.id r ≡ some entry
      → IsWell (update_existing std z info address entry r).1
  unfolding update_existing
  update_existing-IsWell z info address entry r h found =
      let seen : Entry = record entry { discovered = true } in
      let put = put_entry-IsWell info.id entry seen r h found refl in
      elim (Bool-cases (same_info std entry.info info)) [
        | inl same ↦ rw (update_existing, same) put
        | inr differs ↦
            rw (update_existing, differs)
              (updated-IsWell z info address seen entry
                (scanner_at z info.id (put_entry info.id seen r)) (put_entry info.id seen r) put
                (lookup-put_self info.id.value seen r.entries) refl)
      ]

  pub observe-IsWell :
      (z : Zbus) (rank : ℕ) (backend : Bytes) (info : ScannerInfo) (r : Registry)
      → IsWell r
      → IsWell (observe std z rank backend info r).1
  unfolding observe
  observe-IsWell z rank backend info r h = elim (Option-cases (find_entry info.id r)) [
    | inr (entry, found) ↦
        rw (observe, found) (update_existing-IsWell z info (address_of std info) entry r h found)
    | inl fresh ↦ elim (Option-cases (lookup beq (address_of std info) r.owners)) [
      | inl free ↦
          rw (observe, fresh, free)
            (publish-IsWell z info (sighted std rank backend info) false r h fresh)
      | inr (owner, taken) ↦ elim (Option-cases (find_entry owner r)) [
        | inl gone ↦ rw (observe, fresh, taken, gone) h
        | inr (winner, there) ↦ rw (observe, fresh, taken, there) h
      ]
    ]
  ]
