-- ===== src/Daemon/Discovery.antt =====
-- scanbus-daemon/src/discovery.rs: the session behind `StartDiscovery` and `StopDiscovery`, its task, and
-- who holds it open. A step is what happens between two awaits; what the backends and zbus answer and
-- when the limit of the session is reached are arguments of the steps.
pub mod Quiet
pub mod Calls
pub mod Steps
pub mod Held
pub mod Ended
use scanbus_service.Common.{
  ℕ, Bool, true, false, not, ◌||◌, ◌&&◌, Option, none, some, List, [], ◌∷◌, ◌++◌, Bytes, beq, any,
  map, filter, if◌then◌else◌,
}
use scanbus_service.Common.Result.{Result, ok, err}
use scanbus_service.Core.Id.{ScannerId}
use scanbus_service.Core.Model.{ScannerInfo}
use scanbus_service.Daemon.Backends.{RankedBackend, UnknownBackend, select}
use scanbus_service.Daemon.Objects.{Zbus, Tree}
use scanbus_service.Daemon.Scanners.{Registry, Std, observe}
use scanbus_service.Daemon.Scanners.Lifetime.{end_discovery, mark_unseen_offline}
use scanbus_service.Daemon.Scanners.Calls.{Call, perform, new_registry}

-- Where the task of a session stands in `run_session`: it waits for the probes in flight, publishes what
-- one of them found, has joined the last, has marked what was not seen, pauses, or is over.
pub data Stage : Type 0 where
  probing : (flying : List RankedBackend) (seen : List ScannerId) → Stage
  publishing :
      (from : RankedBackend) (infos : List ScannerInfo) (flying : List RankedBackend)
      (seen : List ScannerId)
      → Stage
  marked : Stage
  pausing : Stage
  over : Stage

-- `stop` is the value of the watch channel.
pub record Session : Type 0 where
  pub backends : List RankedBackend
  pub stop : Bool
  pub stage : Stage

-- The state of `Discovery`, the registry, and the session that a call waits for while it holds the lock:
-- `stopping` is true from the signal to the end of `stop_session`.
pub record System : Type 0 where
  pub owners : List Bytes
  pub session : Option Session
  pub stopping : Bool
  pub registry : Registry

abbrev pub is_over : Stage → Bool
is_over Stage.over = true
is_over _ = false

-- `!s.task.is_finished()`
abbrev pub is_alive : Option Session → Bool
is_alive none = false
is_alive (some s) = not (is_over s.stage)

-- `is_running`
abbrev pub is_running : System → Bool
is_running s = is_alive s.session

-- `owners.insert` of a `HashSet`
abbrev pub taken_by : Bytes → List Bytes → List Bytes
taken_by owner owners = if any (beq owner) owners then owners else owner ∷ owners

-- `run_session` as it is spawned
abbrev pub spawned : List RankedBackend → Session
spawned selected = record { backends = selected; stop = false; stage = Stage.probing selected [] }

-- `start`, when the lock is free
unfoldable pub start :
    List Bytes → Bytes → Option (List Bytes) → System → Result (Unit {0}) UnknownBackend × System
start known owner names s = elim (select names known) [
  | err e ↦ (err e, s)
  | ok selected ↦ elim (is_alive s.session) [
    | true ↦ (ok tt, record s { owners = taken_by owner s.owners })
    | false ↦
        (ok tt, record s { owners = taken_by owner s.owners; session = some (spawned selected) })
  ]
]

abbrev pub signalled : Option Session → Option Session
signalled none = none
signalled (some session) = some (record session { stop = true })

-- The head of `stop_session`, which waits for the task.
abbrev pub stop_begins : System → System
stop_begins s = record s { session = signalled s.session; stopping = true }

abbrev pub is_nobody : List Bytes → Bool
is_nobody [] = true
is_nobody _ = false

-- `release_owner`, up to the wait
unfoldable pub release : Bytes → System → System
release owner s =
    let left = filter (λ o. not (beq owner o)) s.owners in
    if any (beq owner) s.owners
    then (if is_nobody left
        then stop_begins (record s { owners = left })
        else record s { owners = left })
    else s

-- `stop`, up to the wait
abbrev pub stop : System → System
stop s = stop_begins (record s { owners = [] })

-- The tail of `stop_session`, once the task is over; the lock is free again.
abbrev pub stop_ends : Zbus → System → System
stop_ends z s = record s {
  session = none;
  stopping = false;
  registry = (end_discovery z s.registry).1;
}

-- The probe of a backend that is joined leaves the set.
abbrev pub landed : Bytes → List RankedBackend → List RankedBackend
landed backend flying = filter (λ b. not (beq backend b.backend)) flying

-- How the probe of a backend ends, if it does not panic.
pub data Probe : Type 0 where
  found : (infos : List ScannerInfo) → Probe
  failed : (message : Bytes) → Probe
  timed_out : Probe

-- What a task of `probe` answers: a backend that cannot be probed has found nothing.
abbrev pub found_by : Probe → List ScannerInfo
found_by (found infos) = infos
found_by (failed message) = []
found_by timed_out = []

-- What the session's task does next: what a probe found, or that it panicked, the next scanner of an
-- answer, the end of a round, the look at the deadline, the end of the pause, and `stopped.changed()`.
pub data Step : Type 0 where
  answered : (backend : RankedBackend) (probe : Probe) → Step
  panicked : (backend : RankedBackend) → Step
  published : Step
  joined : Step
  looked : (limit : Bool) → Step
  woken : Step
  heard : Step

abbrev pub is_flying : RankedBackend → List RankedBackend → Bool
is_flying backend flying = any (λ b. beq backend.backend b.backend) flying

abbrev pub moved : Stage → Session → Registry → Option (Session × Registry)
moved stage session r = some (record session { stage = stage }, r)

module _ (std : Std) where
  -- What a task that waits for its probes does; nothing of a backend is published after the signal.
  abbrev pub probing_step :
      List RankedBackend
      → List ScannerId
      → Zbus
      → Step
      → Session
      → Registry
      → Option (Session × Registry)
  probing_step flying seen z (answered backend probe) session r =
      if not (is_flying backend flying)
      then none
      else if session.stop
      then moved Stage.over session r
      else moved (Stage.publishing backend (found_by probe) (landed backend.backend flying) seen)
          session r
  probing_step flying seen z (panicked backend) session r =
      if is_flying backend flying
      then moved (Stage.probing (landed backend.backend flying) seen) session r
      else none
  probing_step [] seen z joined session r =
      moved Stage.marked session
        (mark_unseen_offline std z (map (λ b. b.backend) session.backends) seen r)
  probing_step _ seen z _ session r = none

  -- The next scanner of an answer, behind which the other probes are waited for again.
  abbrev pub next_info :
      RankedBackend
      → List ScannerInfo
      → List RankedBackend
      → List ScannerId
      → Zbus
      → Session
      → Registry
      → Option (Session × Registry)
  next_info from [] flying seen z session r = moved (Stage.probing flying seen) session r
  next_info from (info ∷ infos) flying seen z session r =
      moved (Stage.publishing from infos flying (seen ++ info.id ∷ [])) session
        (observe std z from.rank from.backend info r).1

  abbrev pub publishing_step :
      RankedBackend
      → List ScannerInfo
      → List RankedBackend
      → List ScannerId
      → Zbus
      → Step
      → Session
      → Registry
      → Option (Session × Registry)
  publishing_step from infos flying seen z published session r =
      next_info from infos flying seen z session r
  publishing_step from infos flying seen z _ session r = none

  abbrev pub marked_step : Zbus → Step → Session → Registry → Option (Session × Registry)
  marked_step z (looked true) session r = moved Stage.over session (end_discovery z r).1
  marked_step z (looked false) session r = moved Stage.pausing session r
  marked_step z _ session r = none

  abbrev pub pausing_step : Step → Session → Registry → Option (Session × Registry)
  pausing_step woken session r = moved (Stage.probing session.backends []) session r
  pausing_step heard session r = if session.stop then moved Stage.over session r else none
  pausing_step _ session r = none

  -- A step of `run_session`; `none` if the task does not stand where the step begins.
  unfoldable pub task_step : Zbus → Step → Session → Registry → Option (Session × Registry)
  task_step z step session r = elim session.stage [
    | probing flying seen ↦ probing_step flying seen z step session r
    | publishing from infos flying seen ↦ publishing_step from infos flying seen z step session r
    | marked ↦ marked_step z step session r
    | pausing ↦ pausing_step step session r
    | over ↦ none
  ]

-- What happens to the daemon: a call of `Discovery`, the end of `stop_session`, a step of the session's
-- task, or a call of the registry from elsewhere.
pub data Action : Type 0 where
  started : (owner : Bytes) (names : Option (List Bytes)) → Action
  released : (owner : Bytes) → Action
  stopped : Action
  swept : Zbus → Action
  worked : Zbus → Step → Action
  called : Zbus → Call → Action

-- The calls of the registry that only discovery makes.
abbrev pub is_from_discovery : Call → Bool
is_from_discovery (Call.observed rank backend info) = true
is_from_discovery Call.ended = true
is_from_discovery (Call.probed backends seen) = true
is_from_discovery _ = false

abbrev pub with_task : Option (Session × Registry) → System → Option System
with_task none s = none
with_task (some (session, r)) s = some (record s { session = some session; registry = r })

module _ (std : Std) (known : List Bytes) where
  unfoldable pub act : Action → System → Option System
  act (started owner names) s = if s.stopping then none else some (start known owner names s).1
  act (released owner) s = if s.stopping then none else some (release owner s)
  act stopped s = if s.stopping then none else some (stop s)
  act (swept z) s = if s.stopping && not (is_running s) then some (stop_ends z s) else none
  act (worked z step) s = elim s.session [
    | none ↦ none
    | some session ↦ with_task (task_step std z step session s.registry) s
  ]
  act (called z call) s =
      if is_from_discovery call
      then none
      else some (record s { registry = perform std z call s.registry })

  -- The system after the actions, each of which can happen where it stands.
  abbrev pub after_actions : List Action → System → Option System
  after_actions [] s = some s
  after_actions (action ∷ actions) s = elim (act action s) [
    | none ↦ none
    | some t ↦ after_actions actions t
  ]

-- `Discovery::new`
abbrev pub new_system : Tree → System
new_system tree = record {
  owners = [];
  session = none;
  stopping = false;
  registry = new_registry tree;
}
