-- ===== src/Daemon/Listeners.antt =====
-- scanbus-daemon/src/listeners.rs: the profile of a press, and the task that keeps the button stream
-- open. A `Duration` is its number of nanoseconds.
pub mod Backoff
pub mod Budget
pub mod Stamp
use scanbus_service.Common.{
  ℕ, zero, suc, ◌+◌, ◌*◌, ◌≡◌, refl, Bool, true, false, Option, none, some, Bytes, ltb, leb,
  if◌then◌else◌,
}
use scanbus_service.Common.Decimal.{max_u32}
use scanbus_service.Common.Optional.{or_else}
use scanbus_service.Core.Id.{ScannerId}
use scanbus_service.Core.Profile.{ProfileKind}
use scanbus_service.Daemon.Jobs.{JobTrigger}

pub data TriggerKind : Type 0 where
  button : (index : ℕ) → TriggerKind
  push : (profile : ProfileKind) → TriggerKind

-- What the backend observed; the time of it is left out.
pub record ScanTrigger : Type 0 where
  pub id : Bytes
  pub scanner_id : ScannerId
  pub kind : TriggerKind

pub record ButtonEvent : Type 0 where
  pub trigger : ScanTrigger
  pub session_profile : Option ProfileKind
  pub default_profile : Option ProfileKind

-- `ButtonEvent::profile`
unfoldable pub profile : ButtonEvent → Option ProfileKind → Option ProfileKind
profile event button_profile = elim event.trigger.kind [
  | TriggerKind.button index ↦
      or_else (or_else button_profile event.session_profile) event.default_profile
  | TriggerKind.push wanted ↦ some wanted
]

unfoldable pub button_index : ButtonEvent → Option ℕ
button_index event = elim event.trigger.kind [
  | TriggerKind.button index ↦ some index
  | TriggerKind.push wanted ↦ none
]

-- The trigger and the profile of the job that a press starts, as `button_pressed` stamps them.
-- `assigned` is what the key's object answers.
unfoldable pub stamped : ButtonEvent → (ℕ → Option ProfileKind) → JobTrigger × Option ProfileKind
stamped event assigned = elim (button_index event) [
  | some index ↦ (JobTrigger.button index, profile event (assigned index))
  | none ↦ (JobTrigger.host, profile event none)
]

pub record RestartPolicy : Type 0 where
  pub initial : ℕ
  pub max : ℕ
  pub attempts : ℕ

-- `RestartPolicy::DEFAULT`
abbrev pub default_policy : RestartPolicy
default_policy = record { initial = 250000000; max = 30000000000; attempts = 6 }

-- `Duration::MAX`: all the seconds of a `u64`, and a nanosecond less than one more.
abbrev pub max_duration : ℕ
max_duration = 18446744073709551615999999999

abbrev pub saturate : ℕ → ℕ
saturate n = if leb n max_duration then n else max_duration

unfoldable pub shifted : ℕ → ℕ
shifted zero = 1
shifted (suc n) = 2 * shifted n

-- `1u32.checked_shl(attempt).unwrap_or(u32::MAX)`
unfoldable pub factor : ℕ → ℕ
factor attempt = if ltb attempt 32 then shifted attempt else max_u32

abbrev pub smaller : ℕ → ℕ → ℕ
smaller m n = if leb m n then m else n

unfoldable pub delay : RestartPolicy → ℕ → ℕ
delay policy attempt = smaller (saturate (policy.initial * factor attempt)) policy.max

-- The fold of `budget`, over the attempts below `n`.
unfoldable pub budget_below : RestartPolicy → ℕ → ℕ
budget_below policy zero = 0
budget_below policy (suc n) = saturate (budget_below policy n + delay policy n)

unfoldable pub budget : RestartPolicy → ℕ
budget policy = budget_below policy policy.attempts

-- Where the task stands: reading a stream, about to ask for another, or over. A number is `attempt`.
pub data Task : Type 0 where
  reading : ℕ → Task
  sleeping : ℕ → Task
  over : Task

-- What happens to it: the stream gives a trigger or ends, the backend starts listening or does not.
pub data Happening : Type 0 where
  press : ButtonEvent → Happening
  ended : Happening
  restarted : Happening
  refused : Happening

-- The inner loop's head: the next task and how long it sleeps first.
unfoldable pub retry : RestartPolicy → ℕ → Task × ℕ
retry policy attempt =
    if leb policy.attempts attempt
    then (Task.over, 0)
    else (Task.sleeping (suc attempt), delay policy attempt)

-- One step of `run`, `none` where the happening cannot be: the next task, what it slept, and the
-- press that the sink is handed.
unfoldable pub step : RestartPolicy → Task → Happening → Option (Task × ℕ × Option ButtonEvent)
step policy (Task.reading attempt) (Happening.press event) = some (Task.reading 0, 0, some event)
step policy (Task.reading attempt) Happening.ended =
    let (next, slept) = retry policy attempt in some (next, slept, none)
step policy (Task.sleeping attempt) Happening.restarted = some (Task.reading attempt, 0, none)
step policy (Task.sleeping attempt) Happening.refused =
    let (next, slept) = retry policy attempt in some (next, slept, none)
step policy task happening = none
