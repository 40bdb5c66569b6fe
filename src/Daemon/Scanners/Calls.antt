-- ===== src/Daemon/Scanners/Calls.antt =====
-- scanbus-daemon/src/scanners.rs: the calls of a registry in the order in which they take the lock.
use scanbus_service.Common.{ℕ, false, Option, none, some, List, [], ◌∷◌, Bytes}
use scanbus_service.Core.Id.{ScannerId}
use scanbus_service.Core.Model.{ScannerInfo}
use scanbus_service.Core.PairingState.{PairingState}
use scanbus_service.Daemon.Objects.{Answer, Zbus, Tree}
use scanbus_service.Daemon.Scanners.{Registry, Std, observe}
use scanbus_service.Daemon.Scanners.Listening.{
  announce_connected, ensure_listening, stop_listening, give_up, mark_restore_offline,
}
use scanbus_service.Daemon.Scanners.Lifetime.{
  promote, retire, end_discovery, mark_unseen_offline, shutdown,
}
use scanbus_service.Daemon.Scanners.Restore.{register_persistent}

-- A hold of the lock, with what the backend answers; `announced` is the end of `listener_failed`.
pub data Call : Type 0 where
  observed : (rank : ℕ) (backend : Bytes) (info : ScannerInfo) → Call
  registered : (backend : Bytes) (info : ScannerInfo) (state : PairingState) → Call
  promoted : (id : ScannerId) → Call
  listened : (started : Answer) (id : ScannerId) → Call
  stopped : (id : ScannerId) → Call
  gave_up : (id : ScannerId) → Call
  announced : (id : ScannerId) → Call
  offline : (id : ScannerId) → Call
  retired : (id : ScannerId) → Call
  ended : Call
  probed : (backends : List Bytes) (seen : List ScannerId) → Call
  shut_down : Call

abbrev pub or_same : Registry → Option Registry → Registry
or_same r none = r
or_same r (some s) = s

module _ (std : Std) where
  -- The registry that a call leaves.
  unfoldable pub perform : Zbus → Call → Registry → Registry
  perform z (observed rank backend info) r = (observe std z rank backend info r).1
  perform z (registered backend info state) r = (register_persistent std z backend info state r).1
  perform z (promoted id) r = promote id r
  perform z (listened started id) r = (ensure_listening z started id r).1
  perform z (stopped id) r = (stop_listening z id r).1
  perform z (gave_up id) r = or_same r (give_up std z id r)
  perform z (announced id) r = announce_connected z id false r
  perform z (offline id) r = mark_restore_offline std z id r
  perform z (retired id) r = (retire z id r).1
  perform z ended r = (end_discovery z r).1
  perform z (probed backends seen) r = mark_unseen_offline std z backends seen r
  perform z shut_down r = shutdown r

  abbrev pub run : List (Zbus × Call) → Registry → Registry
  run [] r = r
  run ((z, call) ∷ calls) r = run calls (perform z call r)

-- `State::default`, over a tree of objects
abbrev pub new_registry : Tree → Registry
new_registry tree = record { entries = []; owners = []; tree = tree; exported = []; saved = [] }
