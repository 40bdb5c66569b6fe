-- ===== src/Daemon/Scanners/Restore.antt =====
-- scanbus-daemon/src/scanners.rs: the scanners of the store at startup. What a backend answers for a
-- scanner is an argument; the replay of the keys' assignments is left out.
use scanbus_service.Common.{
  Bool, true, false, Option, none, some, List, [], ◌∷◌, Bytes, if◌then◌else◌,
}
use scanbus_service.Common.Result.{Result, ok, err}
use scanbus_service.Core.Id.{ScannerId}
use scanbus_service.Core.Model.{ScannerInfo, button_count}
use scanbus_service.Core.PairingState.{PairingState}
use scanbus_service.Core.Path as ObjectPath
use scanbus_service.Daemon.Backends.{get}
use scanbus_service.Daemon.Objects.{Answer, Error, properties_changed, Zbus}
use scanbus_service.Daemon.Scanners.{
  Origin, Entry, Scanner1, Registry, Std, Fault, failed, panicked, find_entry, put_entry,
  put_exported, scanner_at, update, sync_buttons, publish, address_of,
}
use scanbus_service.Daemon.Scanners.Listening.{ensure_listening, mark_restore_offline}
use scanbus_service.Daemon.Store.{Restorable}

-- `PairingMachine::restore_paired` and `restore_failed`, on what the object holds
abbrev pub restore_paired : Scanner1 → Scanner1
restore_paired object =
    if object.paired then object else record object { paired = true; pairing = PairingState.done }

abbrev pub restore_failed : Bytes → Scanner1 → Scanner1
restore_failed message object = record object {
  paired = false;
  pairing = PairingState.failed message;
}

-- `set_restored_pairing_state`
abbrev pub set_restored_pairing_state : PairingState → Scanner1 → Result Scanner1 Fault
set_restored_pairing_state PairingState.done object = ok (restore_paired object)
set_restored_pairing_state (PairingState.failed message) object = ok (restore_failed message object)
set_restored_pairing_state _ object = err panicked

abbrev pub restored :
    ScannerId → Result Scanner1 Fault → Registry → Result (Unit {0}) Fault × Registry
restored id (err e) r = (err e, r)
restored id (ok object) r = (ok tt, put_exported id object r)

abbrev pub is_done : PairingState → Bool
is_done PairingState.done = true
is_done _ = false

module _ (std : Std) where
  -- The scanner of a pairing that no probe has seen.
  abbrev pub persistent_entry : Bytes → ScannerInfo → Entry
  persistent_entry backend info = record {
    info = info;
    origin = Origin.persistent;
    backend = backend;
    listener = none;
    rank = 0;
    address = address_of std info;
    discovered = false;
  }

  abbrev pub promoted :
      Zbus
      → ScannerInfo
      → PairingState
      → Entry
      → Result Scanner1 Error
      → Registry
      → Result (Unit {0}) Fault × Registry
  promoted z info state entry (err e) r = (err (failed e), r)
  promoted z info state entry (ok object) r =
      let (announced, object) = update std z info object in
      let r = put_exported info.id object r in
      elim announced [
        | err source ↦ (err (failed (properties_changed (ObjectPath.scanner info.id) source)), r)
        | ok _ ↦
            restored info.id (set_restored_pairing_state state object)
              (sync_buttons z (button_count entry.info.capabilities) info r)
      ]

  -- The end of `register_persistent_with_state` for a scanner that has no object yet.
  abbrev pub announced :
      Zbus
      → ScannerInfo
      → PairingState
      → Result (Unit {0}) Fault × Registry
      → Result (Unit {0}) Fault × Registry
  announced z info state (err e, r) = (err e, r)
  announced z info state (ok _, r) = elim (scanner_at z info.id r) [
    | err e ↦ (err (failed e), r)
    | ok object ↦ restored info.id (set_restored_pairing_state state object) r
  ]

  -- `register_persistent_with_state`
  unfoldable pub register_persistent :
      Zbus → Bytes → ScannerInfo → PairingState → Registry → Result (Unit {0}) Fault × Registry
  register_persistent z backend info state r = elim (find_entry info.id r) [
    | some entry ↦
        let r =
          put_entry info.id (record entry { origin = Origin.persistent; info = info; rank = 0 })
            r in
        promoted z info state entry (scanner_at z info.id r) r
    | none ↦
        announced z info state (publish z info (persistent_entry backend info) (is_done state) r)
  ]

-- `RestoreDisposition`
pub data Disposition : Type 0 where
  paired : Disposition
  failed_with : (message : Bytes) → Disposition

abbrev pub state_of : Disposition → PairingState
state_of paired = PairingState.done
state_of (failed_with message) = PairingState.failed message

-- What a backend answers for one scanner: its half of the pairing, and `start_listening`, or `none` if
-- that takes too long.
pub record Answers : Type 0 where
  pub disposition : Disposition
  pub listening : Option Answer

module _ (std : Std) where
  -- The listener of a restored scanner that was connected.
  abbrev pub relistened : Zbus → Option Answer → ScannerId → Registry → Registry
  relistened z none id r = mark_restore_offline std z id r
  relistened z (some started) id r =
      let (answer, r) = ensure_listening z started id r in
      elim answer [ err _ ↦ mark_restore_offline std z id r | ok _ ↦ r ]

  -- The end of `restore_one`, after the scanner was published or not.
  abbrev pub reconnected :
      Zbus → Answers → Restorable → Result (Unit {0}) Fault × Registry → Registry
  reconnected z a entry (err _, r) = r
  reconnected z a entry (ok _, r) = elim a.disposition [
    | failed_with message ↦ r
    | paired ↦ if entry.connected then relistened z a.listening entry.scanner.id r else r
  ]

  -- `restore_one`, up to the replay of the assignments
  unfoldable pub restore_one : Zbus → List Bytes → Answers → Restorable → Registry → Registry
  restore_one z backends a entry r = elim (get entry.scanner.backend backends) [
    | none ↦ r
    | some backend ↦
        reconnected z a entry
          (register_persistent std z backend entry.scanner (state_of a.disposition) r)
  ]

  -- `restore`, once the store has been read
  unfoldable pub restore : Zbus → List Bytes → List (Answers × Restorable) → Registry → Registry
  restore z backends [] r = r
  restore z backends ((a, entry) ∷ entries) r =
      restore z backends entries (restore_one z backends a entry r)
