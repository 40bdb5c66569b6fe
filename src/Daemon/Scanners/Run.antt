-- ===== src/Daemon/Scanners/Run.antt =====
-- scanbus-daemon/src/scanners.rs: every sequence of calls keeps the index.
use mathlib.Core.Option.{some-injective}
use scanbus_service.Common.{
  ◌≡◌, ◌≢◌, refl, sym, ◌∙◌, ℕ, Bool, true, false, not, ◌||◌, Option, none, some, List, [], ◌∷◌,
  Bytes, beq, beq→eq, arith, any, Bool-cases, Option-cases, inl, inr,
}
use scanbus_service.Common.Maps.{lookup, insert, text_before}
use scanbus_service.Common.Result.{Result, ok, err, Result-cases}
use scanbus_service.Core.Id.{ScannerId}
use scanbus_service.Core.Model.{ScannerInfo, button_count}
use scanbus_service.Core.PairingState.{PairingState}
use scanbus_service.Core.Status.{Status}
use scanbus_service.Daemon.Objects.{Error, Zbus, Tree}
use scanbus_service.Daemon.Scanners.{
  Origin, Entry, Scanner1, Registry, Std, Fault, panicked, find_entry, put_entry, scanner_at,
  sync_buttons, add_buttons, update, updated, update_existing, address_of, same_info, sighted,
  observe, put_exported, publish, tracked, with_keys,
}
use scanbus_service.Daemon.Scanners.Listening.{set_status}
use scanbus_service.Daemon.Scanners.Lifetime.{unheard, mark_each, mark_unseen_offline}
use scanbus_service.Daemon.Scanners.Restore.{
  register_persistent, persistent_entry, promoted, announced, restored, is_done,
  set_restored_pairing_state,
}
use scanbus_service.Daemon.Scanners.Calls.{Call, perform, run, new_registry}
use scanbus_service.Daemon.Scanners.Index.{IsWell, address_at}
use scanbus_service.Daemon.Scanners.Sound.{
  kept-IsWell, sync_buttons-IsKept, put_entry-IsWell, publish-IsWell, observe-IsWell,
}
use scanbus_service.Common.{All}
use scanbus_service.Common.Maps.{lookup-put}
use scanbus_service.Common.Maps.Order.{sorted_found}
use scanbus_service.Daemon.Scanners.Steady.{
  announced-IsWell, ensure_listening-IsWell, stop_listening-IsWell, promote-IsWell, retire-IsWell,
  values-IsWell, end_discovery-IsWell, marked-IsWell, set_status-IsKept, give_up-IsWell,
  mark_restore_offline-IsWell,
}

-- The addresses of some entries are those of the map.
abbrev IsClaimed : List (Bytes × Entry) → List (Bytes × Entry) → Type 0
IsClaimed entries all = All (λ e. address_at e.0 all ≡ some e.1.address) entries

IsClaimed-insert :
    (key : Bytes) (entry : Entry) (entries all : List (Bytes × Entry))
    → address_at key all ≡ some entry.address
    → IsClaimed entries all
    → IsClaimed entries (insert beq text_before key entry all)
IsClaimed-insert key entry [] all h c = tt
IsClaimed-insert key entry ((k, e) ∷ entries) all h (here, c) =
    let still : address_at k (insert beq text_before key entry all) ≡ some e.address =
      rw (lookup-put k key entry all) (elim (Bool-cases (beq k key)) [
        | inr other ↦ rw (other) here
        | inl same ↦ rw (same) (sym h ∙ rw (beq→eq k key same) at here)
      ]) in
    (still, IsClaimed-insert key entry entries all h c)

lookup-IsClaimed :
    (entries all : List (Bytes × Entry))
    → All (λ e. lookup beq e.0 all ≡ some e.1) entries
    → IsClaimed entries all
lookup-IsClaimed [] all h = tt
lookup-IsClaimed ((k, e) ∷ entries) all (here, h) = (rw (here) refl, lookup-IsClaimed entries all h)

tracked-ne-panicked :
    (z : Zbus) (info : ScannerInfo) (entry : Entry) (answer : Result (Unit {0}) Error × Tree)
    (r : Registry)
    → (tracked z info entry answer r).0 ≢ err panicked
tracked-ne-panicked z info entry (err e, tree) r = ground arith
tracked-ne-panicked z info entry (ok _, tree) r = ground arith

with_keys-ne-panicked :
    (z : Zbus) (info : ScannerInfo) (entry : Entry) (paired : Bool)
    (answer : Result (Unit {0}) Error × Tree) (r : Registry)
    → (with_keys z info entry paired answer r).0 ≢ err panicked
with_keys-ne-panicked z info entry paired (err e, tree) r = ground arith
with_keys-ne-panicked z info entry paired (ok _, tree) r =
    tracked-ne-panicked z info entry (add_buttons z info 0 tree) _

publish-ne-panicked :
    (z : Zbus) (info : ScannerInfo) (entry : Entry) (paired : Bool) (r : Registry)
    → (publish z info entry paired r).0 ≢ err panicked
unfolding publish
publish-ne-panicked z info entry paired r = with_keys-ne-panicked z info entry paired _ r

pub new_registry-IsWell : (tree : Tree) → IsWell (new_registry tree)
unfolding lookup
new_registry-IsWell tree = (tt, λ a i h. absurd (ground arith))

module _ (std : Std) where
  mark_each-IsWell :
      (z : Zbus) (probed : List Bytes) (seen : List ScannerId) (entries : List (Bytes × Entry))
      (r : Registry)
      → IsWell r
      → IsClaimed entries r.entries
      → IsWell (mark_each std z probed seen entries r)
  unfolding mark_each
  mark_each-IsWell z probed seen [] r h c = h
  mark_each-IsWell z probed seen ((key, entry) ∷ entries) r h (here, c) =
      let id : ScannerId = record { value = key } in
      let (kept, address) = set_status-IsKept std z Status.offline entry r in
      elim (Bool-cases
        (not (any (beq entry.backend) probed) || any (λ id. beq id.value key) seen)) [
          | inl skipped ↦ rw (skipped) (mark_each-IsWell z probed seen entries r h c)
          | inr marked ↦ elim (Option-cases (lookup beq key r.entries)) [
            | inl gone ↦
                let nothing : ◌≡◌ {A = Option Bytes} none (some entry.address) =
                  rw (gone) at here in
                absurd (cc)
            | inr (old, found) ↦
                let same : some old.address ≡ some entry.address = rw (found) at here in
                let put =
                  marked-IsWell std z Status.offline id old entry r h found
                    (some-injective old.address entry.address same) in
                rw (marked) (
                  mark_each-IsWell z probed seen entries _ put (
                    rw (kept.0) (
                      IsClaimed-insert key (set_status std z Status.offline entry r).1 entries
                        r.entries (rw (address) here) c)))
          ]
        ]

  pub mark_unseen_offline-IsWell :
      (z : Zbus) (probed : List Bytes) (seen : List ScannerId) (r : Registry)
      → IsWell r
      → IsWell (mark_unseen_offline std z probed seen r)
  unfolding mark_unseen_offline
  mark_unseen_offline-IsWell z probed seen r (sorted, owned) =
      mark_each-IsWell z probed seen r.entries r (sorted, owned)
        (lookup-IsClaimed r.entries r.entries (sorted_found r.entries sorted))

  restored-IsWell :
      (id : ScannerId) (object : Result Scanner1 Fault) (r : Registry)
      → IsWell r
      → IsWell (restored id object r).1
  restored-IsWell id (err e) r h = h
  restored-IsWell id (ok object) r h = h

  promoted-IsWell :
      (z : Zbus) (info : ScannerInfo) (state : PairingState) (entry : Entry)
      (object : Result Scanner1 Error) (r : Registry)
      → IsWell r
      → IsWell (promoted std z info state entry object r).1
  promoted-IsWell z info state entry (err e) r h = h
  promoted-IsWell z info state entry (ok object) r h =
      let changed = update std z info object in
      let s = put_exported info.id changed.1 r in
      let previous = button_count entry.info.capabilities in
      elim (Result-cases (changed.0)) [
        | inr (source, unheard) ↦ rw (promoted, unheard) h
        | inl (_, heard) ↦
            rw (promoted, heard)
              (restored-IsWell info.id (set_restored_pairing_state state changed.1)
                (sync_buttons z previous info s)
                (kept-IsWell s (sync_buttons z previous info s)
                  (sync_buttons-IsKept z previous info s) h))
      ]

  announced_pairing-IsWell :
      (z : Zbus) (info : ScannerInfo) (state : PairingState)
      (published : Result (Unit {0}) Fault × Registry)
      → IsWell published.1
      → IsWell (announced std z info state published).1
  announced_pairing-IsWell z info state (err e, r) h = h
  announced_pairing-IsWell z info state (ok _, r) h = elim (Result-cases (scanner_at z info.id r)) [
    | inr (e, gone) ↦ rw (announced, gone) h
    | inl (object, there) ↦
        rw (announced, there)
          (restored-IsWell info.id (set_restored_pairing_state state object) r h)
  ]

  pub register_persistent-IsWell :
      (z : Zbus) (backend : Bytes) (info : ScannerInfo) (state : PairingState) (r : Registry)
      → IsWell r
      → IsWell (register_persistent std z backend info state r).1
  unfolding register_persistent
  register_persistent-IsWell z backend info state r h = elim (Option-cases (find_entry info.id r)) [
    | inr (entry, found) ↦
        rw (register_persistent, found)
          (promoted-IsWell z info state entry _ _ (
            put_entry-IsWell info.id entry
              (record entry { origin = Origin.persistent; info = info; rank = 0 }) r h found refl))
    | inl fresh ↦
        rw (register_persistent, fresh)
          (announced_pairing-IsWell z info state _
            (publish-IsWell z info (persistent_entry std backend info) (is_done state) r h fresh))
  ]

  pub perform-IsWell :
      (z : Zbus) (call : Call) (r : Registry) → IsWell r → IsWell (perform std z call r)
  unfolding perform
  perform-IsWell z (Call.observed rank backend info) r h =
      observe-IsWell std z rank backend info r h
  perform-IsWell z (Call.registered backend info state) r h =
      register_persistent-IsWell z backend info state r h
  perform-IsWell z (Call.promoted id) r h = promote-IsWell id r h
  perform-IsWell z (Call.listened started id) r h = ensure_listening-IsWell z started id r h
  perform-IsWell z (Call.stopped id) r h = stop_listening-IsWell z id r h
  perform-IsWell z (Call.gave_up id) r h = give_up-IsWell std z id r h
  perform-IsWell z (Call.announced id) r h = announced-IsWell z id false r h
  perform-IsWell z (Call.offline id) r h = mark_restore_offline-IsWell std z id r h
  perform-IsWell z (Call.retired id) r h = retire-IsWell z id r h
  perform-IsWell z Call.ended r h = end_discovery-IsWell z r h
  perform-IsWell z (Call.probed backends seen) r h = mark_unseen_offline-IsWell z backends seen r h
  perform-IsWell z Call.shut_down r h = values-IsWell unheard r (λ e. refl) h

  pub run-IsWell : (calls : List (Zbus × Call)) (r : Registry) → IsWell r → IsWell (run std calls r)
  run-IsWell [] r h = h
  run-IsWell ((z, call) ∷ calls) r h =
      run-IsWell calls (perform std z call r) (perform-IsWell z call r h)

  updated-ne-panicked :
      (z : Zbus) (info : ScannerInfo) (address : Bytes) (entry : Entry)
      (object : Result Scanner1 Error) (r : Registry)
      → (updated std z info address entry object r).0 ≢ err panicked
  updated-ne-panicked z info address entry (err e) r = ground arith
  updated-ne-panicked z info address entry (ok object) r =
      elim (Result-cases (update std z info object).0) [
        | inr (source, unheard) ↦ rw (updated, unheard) (ground arith)
        | inl (_, heard) ↦ rw (updated, heard) (ground arith)
      ]

  update_existing-ne-panicked :
      (z : Zbus) (info : ScannerInfo) (address : Bytes) (entry : Entry) (r : Registry)
      → (update_existing std z info address entry r).0 ≢ err panicked
  unfolding update_existing
  update_existing-ne-panicked z info address entry r =
      elim (Bool-cases (same_info std entry.info info)) [
        | inl same ↦ rw (update_existing, same) (ground arith)
        | inr differs ↦
            let s = put_entry info.id (record entry { discovered = true }) r in
            rw (update_existing, differs)
              (updated-ne-panicked z info address entry (scanner_at z info.id s) s)
      ]

  -- An owner that the index names is found, so a sighting does not panic.
  observe-ne-panicked :
      (z : Zbus) (rank : ℕ) (backend : Bytes) (info : ScannerInfo) (r : Registry)
      → IsWell r
      → (observe std z rank backend info r).0 ≢ err panicked
  unfolding observe
  observe-ne-panicked z rank backend info r (sorted, owned) =
      elim (Option-cases (find_entry info.id r)) [
        | inr (entry, found) ↦
            rw (observe, found) (update_existing-ne-panicked z info (address_of std info) entry r)
        | inl fresh ↦ elim (Option-cases (lookup beq (address_of std info) r.owners)) [
          | inl free ↦
              rw (observe, fresh, free)
                (publish-ne-panicked z info (sighted std rank backend info) false r)
          | inr (owner, taken) ↦ elim (Option-cases (find_entry owner r)) [
            | inr (winner, there) ↦ rw (observe, fresh, taken, there) (ground arith)
            | inl gone ↦
                let claimed : ◌≡◌ {A = Option Bytes} none (some (address_of std info)) =
                  rw (gone) at (owned (address_of std info) owner taken) in
                absurd (cc)
          ]
        ]
      ]

  -- Whatever was called in whatever order, and whatever zbus and the backends answered, a sighting does
  -- not panic: the scanner that the index names for an address is there.
  pub run-observe :
      (calls : List (Zbus × Call)) (tree : Tree) (z : Zbus) (rank : ℕ) (backend : Bytes)
      (info : ScannerInfo)
      → (observe std z rank backend info (run std calls (new_registry tree))).0 ≢ err panicked
  run-observe calls tree z rank backend info =
      observe-ne-panicked z rank backend info (run std calls (new_registry tree))
        (run-IsWell calls (new_registry tree) (new_registry-IsWell tree))
