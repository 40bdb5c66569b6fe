-- ===== src/Daemon/Scanners/Listening.antt =====
-- scanbus-daemon/src/scanners.rs: the listeners, `Connected` and `Status`. What a backend answers is an
-- argument. `listener_failed` gives the lock back before it announces, so it is two functions.
use scanbus_service.Common.{Bool, true, false, Option, none, some, ◌∷◌, Bytes, if◌then◌else◌}
use scanbus_service.Common.Result.{Result, ok, err}
use scanbus_service.Core.Id.{ScannerId}
use scanbus_service.Core.Status.{Status}
use scanbus_service.Daemon.Objects.{Answer, Error, Zbus}
use scanbus_service.Daemon.Scanners.{
  Task, Entry, Scanner1, Registry, Std, find_entry, put_entry, put_exported, scanner_at,
  same_status, update,
}

pub data ListenError : Type 0 where
  unknown : ScannerId → ListenError
  backend : Bytes → ListenError

-- `scanner::set_connected` on the object, if there is one; the signal may be lost.
abbrev pub set_connected : ScannerId → Bool → Result Scanner1 Error → Registry → Registry
set_connected id connected (err e) r = r
set_connected id connected (ok object) r =
    put_exported id (record object { connected = connected }) r

-- `announce_connected`; what the store answers is only logged.
unfoldable pub announce_connected : Zbus → ScannerId → Bool → Registry → Registry
announce_connected z id connected r =
    let r = set_connected id connected (scanner_at z id r) r in
    record r { saved = (id, connected) ∷ r.saved }

abbrev pub is_running : Option Task → Bool
is_running (some Task.running) = true
is_running _ = false

-- `ensure_listening`; `started` is what `start_listening` answers.
unfoldable pub ensure_listening :
    Zbus → Answer → ScannerId → Registry → Result (Unit {0}) ListenError × Registry
ensure_listening z started id r = elim (find_entry id r) [
  | none ↦ (err (unknown id), r)
  | some entry ↦ elim (is_running entry.listener) [
    | true ↦ (ok tt, r)
    | false ↦ elim started [
      | err e ↦ (err (backend e), r)
      | ok _ ↦ (
        ok tt,
        announce_connected z id true
            (put_entry id (record entry { listener = some Task.running }) r),
      )
    ]
  ]
]

-- `stop_listening`; a backend that does not stop is only logged.
unfoldable pub stop_listening : Zbus → ScannerId → Registry → Bool × Registry
stop_listening z id r = elim (find_entry id r) [
  | none ↦ (false, r)
  | some entry ↦ (
    is_running entry.listener,
    announce_connected z id false (put_entry id (record entry { listener = none }) r),
  )
]

-- `is_listening`
abbrev pub is_listening : ScannerId → Registry → Bool
is_listening id r = elim (find_entry id r) [ none ↦ false | some entry ↦ is_running entry.listener ]

module _ (std : Std) where
  -- `set_status` of an entry under its own id: whether anything moved, the entry, and the objects.
  abbrev pub status_set :
      Zbus → Status → Entry → Result Scanner1 Error → Registry → Bool × Entry × Registry
  status_set z status entry (err e) r = (false, entry, r)
  status_set z status entry (ok object) r =
      let info = record entry.info { status = status } in
      (true, record entry { info = info }, put_exported info.id (update std z info object).1 r)

  unfoldable pub set_status : Zbus → Status → Entry → Registry → Bool × Entry × Registry
  set_status z status entry r =
      if same_status entry.info.status status
      then (false, entry, r)
      else status_set z status entry (scanner_at z entry.info.id r) r

  -- `listener_failed` while it holds the lock; `none` if there is no such scanner.
  unfoldable pub give_up : Zbus → ScannerId → Registry → Option Registry
  give_up z id r = elim (find_entry id r) [
    | none ↦ none
    | some entry ↦
        let (moved, entry, r) = set_status z Status.error (record entry { listener = none }) r in
        some (put_entry id entry r)
  ]

  -- `listener_failed`, when no other call comes between its lock and its announcement.
  unfoldable pub listener_failed : Zbus → ScannerId → Registry → Registry
  listener_failed z id r = elim (give_up z id r) [
    | none ↦ r
    | some r ↦ announce_connected z id false r
  ]

  -- `mark_restore_offline`
  unfoldable pub mark_restore_offline : Zbus → ScannerId → Registry → Registry
  mark_restore_offline z id r = elim (find_entry id r) [
    | none ↦ announce_connected z id false r
    | some entry ↦
        let (moved, entry, r) = set_status z Status.offline entry r in
        announce_connected z id false (put_entry id entry r)
  ]
