-- ===== src/Core/Pairing.antt =====
-- scanbus-core/src/pairing.rs: `PairingMachine`, the tasks that drive it, and the relay of each.
-- A method that holds the lock once is one function on `System`; a task moves from one await to
-- the next by one action, so that actions of several tasks and callers interleave freely.
pub mod Actions
pub mod Durability
pub mod Moves
pub mod Stages
pub mod Calls
pub mod Unpair
pub mod Stuck
pub mod Orphan
pub mod Undisturbed
use scanbus_service.Common.{
  ℕ, suc, ◌+◌, ◌≡◌, refl, Bool, true, false, Option, none, some, List, [], ◌∷◌, ◌++◌, Bytes, ltb,
  ◌==◌, if◌then◌else◌, length,
}
use scanbus_service.Common.Result.{Result, ok, err}
use scanbus_service.Core.PairingState
use scanbus_service.Core.PairingState.{PairingState}
use scanbus_service.Core.Progress.{Progress, pairing_state}

-- What has happened: a value on the transition channel, and the writes of the pairing store.
pub data Event : Type 0 where
  sent : PairingState → Event
  stored : Event
  restored : Event
  forgot : Event

-- Where the driver task of one `pair()` stands, between two awaits.
pub data Phase : Type 0 where
  unborn : Phase
  installing : Phase
  draining : Result (Unit {0}) Bytes → Phase
  listening : Phase
  saving : Phase
  saved : Phase
  failing : Bytes → Phase
  announcing : PairingState → Phase
  ended : Phase

-- The relay task of one run: between receiving a step and sending its state, or finished.
pub data Relay : Type 0 where
  receiving : Relay
  sending : PairingState → Relay
  closed : Relay

pub record Task (S : Type 0) : Type 0 where
  pub snapshot : S
  pub phase : Phase
  pub queue : List Progress
  pub relay : Relay
  pub aborted : Bool

-- A call that gives the lock back before it sends: `unpair`, `restore_paired`, `restore_failed`.
pub data Call : Type 0 where
  absent : Call
  stopping : Call
  forgotten : Call
  reading : Call
  replying : PairingState → Call
  returned : Call

-- `Inner`, the transition channel, and the tasks and calls in flight by number.
pub record System (S : Type 0) : Type 0 where
  pub scanner : S
  pub state : PairingState
  pub paired : Bool
  pub task : Option ℕ
  pub log : List Event
  pub tasks : ℕ → Task S
  pub calls : ℕ → Call
  pub next_task : ℕ

abbrev pub update {ℓ} : {A : Type ℓ} → (ℕ → A) → ℕ → A → ℕ → A
update f i a j = if i == j then a else f j

-- `PROGRESS_BUFFER`
abbrev pub progress_buffer : ℕ
progress_buffer = 16

pub data PairOutcome : Type 0 where
  started already_in_progress already_paired : PairOutcome

abbrev pub relay_after : Option PairingState → Relay
relay_after none = receiving
relay_after (some st) = sending st

module _ {S : Type 0} where
  abbrev pub fresh_task : S → Task S
  fresh_task x = record {
    snapshot = x;
    phase = installing;
    queue = [];
    relay = receiving;
    aborted = false;
  }

  -- `PairingMachine::new`
  abbrev pub new : S → System S
  new x = record {
    scanner = x;
    state = PairingState.idle;
    paired = false;
    task = none;
    log = [];
    tasks = λ i. record (fresh_task x) { phase = unborn; relay = closed };
    calls = λ i. absent;
    next_task = 0;
  }

  -- `AbortHandle::abort` on the task that the handle names.
  abbrev pub abort : Option ℕ → (ℕ → Task S) → ℕ → Task S
  abort none tasks = tasks
  abort (some i) tasks = update tasks i (record (tasks i) { aborted = true })

  abbrev pub emit : PairingState → System S → System S
  emit st s = record s { log = sent st ∷ s.log }

  -- `pair`
  unfoldable pub pair : System S → System S × PairOutcome
  pair s =
      if s.paired
      then (s, already_paired)
      else if PairingState.is_in_progress s.state
      then (s, already_in_progress)
      else (
        record s {
          state = PairingState.pairing;
          log = sent PairingState.pairing ∷ s.log;
          tasks = update s.tasks s.next_task (fresh_task s.scanner);
          task = some s.next_task;
          next_task = s.next_task + 1;
        },
        started,
      )

  -- `cancel`, from the handle that the machine holds
  cancel_task : Option ℕ → System S → System S
  cancel_task none s = s
  cancel_task (some i) s =
      let stopped = record s { task = none; tasks = abort (some i) s.tasks } in
      if PairingState.is_in_progress s.state
      then record stopped { state = PairingState.idle; log = sent PairingState.idle ∷ s.log }
      else stopped

  unfoldable pub cancel : System S → System S
  unfolding cancel_task
  cancel s = cancel_task s.task s

  -- `set_scanner`, which returns the previous value
  unfoldable pub set_scanner : S → System S → System S × S
  set_scanner x s = (record s { scanner = x }, s.scanner)

  -- `restore_paired`, up to the end of its lock; the call then replies, or returns at once
  unfoldable pub restore_paired : System S → System S × Call
  restore_paired s = if s.paired then (s, returned) else (
    record s {
      task = none;
      tasks = abort s.task s.tasks;
      paired = true;
      state = PairingState.done;
      log = restored ∷ s.log;
    },
    replying PairingState.done,
  )

  -- `restore_failed`, up to the end of its first lock; `self.state()` takes the lock once more
  unfoldable pub restore_failed : Bytes → System S → System S × Call
  restore_failed message s = (
    record s {
      task = none;
      tasks = abort s.task s.tasks;
      paired = false;
      state = PairingState.failed message;
    },
    reading,
  )

  -- `unpair`, its first lock: refused with `NotPaired`, or on to the backend and the store
  unfoldable pub unpair_begin : System S → System S × Call
  unpair_begin s = if s.paired then (record s { task = none }, stopping) else (s, returned)

  -- `unpair`, its second lock
  unfoldable pub unpair_clear : System S → System S × Call
  unpair_clear s =
      (record s { paired = false; state = PairingState.idle }, replying PairingState.idle)

  -- The last lock of `run`: announced only after `save_paired` has returned.
  unfoldable pub complete : System S → System S
  complete s = record s { state = PairingState.done; paired = true; task = none }

  -- The lock of `finish`
  unfoldable pub finish : PairingState → System S → System S
  finish st s = record s { state = st; task = none }

  -- The relay's lock: the state that a step implies, if it implies one.
  relay_state : Option PairingState → System S → System S
  relay_state none s = s
  relay_state (some st) s = record s { state = st }

  -- Task `i` moves to another phase.
  abbrev pub set_phase : ℕ → Phase → System S → System S
  set_phase i p s = record s { tasks = update s.tasks i (record (s.tasks i) { phase = p }) }

  abbrev pub set_call : ℕ → System S × Call → System S
  set_call i r = let t = r.0 in record t { calls = update t.calls i r.1 }
