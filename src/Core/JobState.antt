-- ===== src/Core/JobState.antt =====
-- scanbus-core/src/model/job.rs: `JobState`, the lifecycle of one scan.
use scanbus_service.Common.{
  ◌≡◌, ◌↔◌, refl, Bool, true, false, [], Bytes, codes, beq, beq→eq, if◌then◌else◌, arith,
}
use scanbus_service.Common.Result.{Result, ok, err}
use scanbus_service.Core.Names.{ParseError}

pub data JobState : Type 0 where
  receiving : JobState
  processing : JobState
  done : JobState
  error : (message : Bytes) → JobState

unfoldable pub as_str : JobState → Bytes
as_str JobState.receiving = codes "receiving"
as_str JobState.processing = codes "processing"
as_str JobState.done = codes "done"
as_str (JobState.error message) = codes "error"

abbrev pub is_error : JobState → Bool
is_error (JobState.error _) = true
is_error _ = false

-- `JobState::error`
unfoldable pub message_of : JobState → Bytes
message_of (JobState.error message) = message
message_of _ = []

abbrev pub is_terminal : JobState → Bool
is_terminal JobState.done = true
is_terminal (JobState.error _) = true
is_terminal _ = false

unfoldable pub from_dbus : Bytes → Bytes → Result JobState ParseError
from_dbus state message =
    if beq state (codes "receiving")
    then ok JobState.receiving
    else if beq state (codes "processing")
    then ok JobState.processing
    else if beq state (codes "done")
    then ok JobState.done
    else if beq state (codes "error")
    then ok (JobState.error message)
    else err (record { kind = "JobState"; value = state })

from_dbus→as_str :
    (str e : Bytes) (s : JobState)
    → from_dbus str e ≡ ok s
    → (as_str s ≡ str) × (message_of s ≡ (if is_error s then e else []))
unfolding from_dbus as_str message_of
from_dbus→as_str str e s h = ground (
  arith,
  beq→eq str (codes "receiving"),
  beq→eq str (codes "processing"),
  beq→eq str (codes "done"),
  beq→eq str (codes "error"),
)

as_str→from_dbus :
    (e : Bytes) (s : JobState)
    → message_of s ≡ (if is_error s then e else [])
    → from_dbus (as_str s) e ≡ ok s
unfolding from_dbus as_str message_of beq
as_str→from_dbus e JobState.receiving h = refl
as_str→from_dbus e JobState.processing h = refl
as_str→from_dbus e JobState.done h = refl
as_str→from_dbus e (JobState.error m) h = rw h

-- The two D-Bus properties read back as a job state exactly if the string is that state's name and
-- the message is kept for "error" alone: a stale message beside another state leaves no trace.
pub job_from_dbus_iff :
    (str e : Bytes) (s : JobState)
    → (from_dbus str e ≡ ok s)
      ↔ ((as_str s ≡ str) × (message_of s ≡ (if is_error s then e else [])))
job_from_dbus_iff str e s = (from_dbus→as_str str e s, λ p. rw (← p.0) (as_str→from_dbus e s p.1))
