-- ===== src/Daemon/Discovery/Calls.antt =====
-- scanbus-daemon/src/scanners.rs: no call from outside discovery makes a scanner that only a session has.
use scanbus_service.Common.{◌≡◌, refl, Bool, true, false, Bytes, arith, Option-cases, inl, inr}
use scanbus_service.Common.Result.{Result, ok, err, Result-cases}
use scanbus_service.Core.Id.{ScannerId}
use scanbus_service.Core.Model.{ScannerInfo, button_count}
use scanbus_service.Core.PairingState.{PairingState}
use scanbus_service.Daemon.Objects.{Error, Zbus, Tree}
use scanbus_service.Daemon.Scanners.{
  Origin, Entry, Scanner1, Registry, Std, Fault, find_entry, put_entry, scanner_at, publish,
  with_keys, tracked, add_buttons, put_exported, new_scanner1, sync_buttons, update,
}
use scanbus_service.Daemon.Scanners.Restore.{
  register_persistent, persistent_entry, promoted, announced, restored, is_done,
  set_restored_pairing_state,
}
use scanbus_service.Daemon.Scanners.Calls.{Call, perform}
use scanbus_service.Daemon.Scanners.Sound.{sync_buttons-IsKept}
use scanbus_service.Daemon.Discovery.{is_from_discovery}
use scanbus_service.Daemon.Discovery.Quiet.{
  is_quiet, IsQuiet, same_entries-IsQuiet, put_entry-IsQuiet, promote-IsQuiet, retire-IsQuiet,
  ensure_listening-IsQuiet, stop_listening-IsQuiet, announce_connected-IsQuiet, give_up-IsQuiet,
  mark_restore_offline-IsQuiet, shutdown-IsQuiet,
}

tracked-IsQuiet :
    (z : Zbus) (info : ScannerInfo) (entry : Entry) (answer : Result (Unit {0}) Error × Tree)
    (r : Registry)
    → is_quiet entry ≡ true
    → IsQuiet r
    → IsQuiet (tracked z info entry answer r).1
tracked-IsQuiet z info entry (err e, tree) r quiet h = h
tracked-IsQuiet z info entry (ok _, tree) r quiet h = put_entry-IsQuiet info.id entry r quiet h

with_keys-IsQuiet :
    (z : Zbus) (info : ScannerInfo) (entry : Entry) (paired : Bool)
    (answer : Result (Unit {0}) Error × Tree) (r : Registry)
    → is_quiet entry ≡ true
    → IsQuiet r
    → IsQuiet (with_keys z info entry paired answer r).1
with_keys-IsQuiet z info entry paired (err e, tree) r quiet h = h
with_keys-IsQuiet z info entry paired (ok _, tree) r quiet h =
    tracked-IsQuiet z info entry (add_buttons z info 0 tree)
      (put_exported info.id (new_scanner1 info paired) r) quiet h

publish-IsQuiet :
    (z : Zbus) (info : ScannerInfo) (entry : Entry) (paired : Bool) (r : Registry)
    → is_quiet entry ≡ true
    → IsQuiet r
    → IsQuiet (publish z info entry paired r).1
unfolding publish
publish-IsQuiet z info entry paired r quiet h = with_keys-IsQuiet z info entry paired _ r quiet h

restored-IsQuiet :
    (id : ScannerId) (object : Result Scanner1 Fault) (r : Registry)
    → IsQuiet r
    → IsQuiet (restored id object r).1
restored-IsQuiet id (err e) r h = h
restored-IsQuiet id (ok object) r h = h

module _ (std : Std) where
  promoted-IsQuiet :
      (z : Zbus) (info : ScannerInfo) (state : PairingState) (entry : Entry)
      (object : Result Scanner1 Error) (r : Registry)
      → IsQuiet r
      → IsQuiet (promoted std z info state entry object r).1
  promoted-IsQuiet z info state entry (err e) r h = h
  promoted-IsQuiet z info state entry (ok object) r h =
      let changed = update std z info object in
      let s = put_exported info.id changed.1 r in
      let previous = button_count entry.info.capabilities in
      elim (Result-cases (changed.0)) [
        | inr (source, unheard) ↦ rw (promoted, unheard) h
        | inl (_, heard) ↦
            rw (promoted, heard)
              (restored-IsQuiet info.id (set_restored_pairing_state state changed.1)
                (sync_buttons z previous info s)
                (same_entries-IsQuiet s (sync_buttons z previous info s)
                  (sync_buttons-IsKept z previous info s).0 h))
      ]

  announced-IsQuiet :
      (z : Zbus) (info : ScannerInfo) (state : PairingState)
      (published : Result (Unit {0}) Fault × Registry)
      → IsQuiet published.1
      → IsQuiet (announced std z info state published).1
  announced-IsQuiet z info state (err e, r) h = h
  announced-IsQuiet z info state (ok _, r) h = elim (Result-cases (scanner_at z info.id r)) [
    | inr (e, gone) ↦ rw (announced, gone) h
    | inl (object, there) ↦
        rw (announced, there)
          (restored-IsQuiet info.id (set_restored_pairing_state state object) r h)
  ]

  register_persistent-IsQuiet :
      (z : Zbus) (backend : Bytes) (info : ScannerInfo) (state : PairingState) (r : Registry)
      → IsQuiet r
      → IsQuiet (register_persistent std z backend info state r).1
  unfolding register_persistent
  register_persistent-IsQuiet z backend info state r h =
      elim (Option-cases (find_entry info.id r)) [
        | inl fresh ↦
            rw (register_persistent, fresh)
              (announced-IsQuiet z info state
                (publish z info (persistent_entry std backend info) (is_done state) r)
                (publish-IsQuiet z info (persistent_entry std backend info) (is_done state) r refl
                  h))
        | inr (entry, found) ↦
            let paired : Entry = record entry {
              origin = Origin.persistent;
              info = info;
              rank = 0;
            } in
            rw (register_persistent, found)
              (promoted-IsQuiet z info state entry
                (scanner_at z info.id (put_entry info.id paired r)) (put_entry info.id paired r)
                (put_entry-IsQuiet info.id paired r (ground (arith, h info.id entry found)) h))
      ]

  -- A call from outside discovery.
  pub perform-IsQuiet :
      (z : Zbus) (call : Call) (r : Registry)
      → is_from_discovery call ≡ false
      → IsQuiet r
      → IsQuiet (perform std z call r)
  unfolding perform
  perform-IsQuiet z (Call.observed rank backend info) r outside h = absurd (ground arith)
  perform-IsQuiet z (Call.registered backend info state) r outside h =
      register_persistent-IsQuiet z backend info state r h
  perform-IsQuiet z (Call.promoted id) r outside h = promote-IsQuiet id r h
  perform-IsQuiet z (Call.listened answer id) r outside h = ensure_listening-IsQuiet z answer id r h
  perform-IsQuiet z (Call.stopped id) r outside h = stop_listening-IsQuiet z id r h
  perform-IsQuiet z (Call.gave_up id) r outside h = give_up-IsQuiet std z id r h
  perform-IsQuiet z (Call.announced id) r outside h = announce_connected-IsQuiet z id false r h
  perform-IsQuiet z (Call.offline id) r outside h = mark_restore_offline-IsQuiet std z id r h
  perform-IsQuiet z (Call.retired id) r outside h = retire-IsQuiet z id r h
  perform-IsQuiet z Call.ended r outside h = absurd (ground arith)
  perform-IsQuiet z (Call.probed backends seen) r outside h = absurd (ground arith)
  perform-IsQuiet z Call.shut_down r outside h = shutdown-IsQuiet r h
