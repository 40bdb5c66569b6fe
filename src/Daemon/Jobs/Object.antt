-- ===== src/Daemon/Jobs/Object.antt =====
-- scanbus-daemon/src/dbus/job.rs: the job object and the two ways its properties move.
use scanbus_service.Common.{
  ℕ, Bool, true, false, ◌&&◌, Option, none, some, List, [], ◌∷◌, Bytes, beq, ◌==◌, if◌then◌else◌,
}
use scanbus_service.Common.Int.{ℤ, negsuc}
use scanbus_service.Core.JobState.{JobState, as_str, message_of}
use scanbus_service.Core.Profile.{ProfileKind}
use scanbus_service.Core.Value.{Dict}

-- `HOST_TRIGGERED`
abbrev pub host_triggered : ℤ
host_triggered = negsuc 0

pub record Job1 : Type 0 where
  pub scanner : Bytes
  pub button : ℤ
  pub profile : Option ProfileKind
  pub state : JobState
  pub page_count : ℕ
  pub result : Dict

abbrev pub new : Bytes → ℤ → Option ProfileKind → ℕ → Job1
new scanner button profile page_count = record {
  scanner = scanner;
  button = button;
  profile = profile;
  state = JobState.receiving;
  page_count = page_count;
  result = [];
}

-- What the bus carries about a job object.
pub data Signal : Type 0 where
  exported : Job1 → Signal
  page_count : ℕ → Signal
  changed : (state error : Option Bytes) (result : Option Dict) → Signal
  removed : Signal

unfoldable pub set_page_count : Job1 → ℕ → Job1 × List Signal
set_page_count job count =
    if job.page_count == count
    then (job, [])
    else (record job { page_count = count }, Signal.page_count count ∷ [])

-- `JobState`'s equality
unfoldable pub same_state : JobState → JobState → Bool
same_state s t = beq (as_str s) (as_str t) && beq (message_of s) (message_of t)

abbrev pub no_entries : Dict → Bool
no_entries [] = true
no_entries (e ∷ entries) = false

abbrev pub moved : Bytes → Bytes → Option Bytes
moved before after = if beq before after then none else some after

abbrev pub written : Dict → Option Dict
written result = if no_entries result then none else some result

abbrev pub signal_of : Option Bytes → Option Bytes → Option Dict → List Signal
signal_of none none none = []
signal_of state error result = Signal.changed state error result ∷ []

unfoldable pub transition : Job1 → JobState → Dict → Job1 × List Signal
transition job state result =
    let next : Job1 = record job {
      state = state;
      result = if no_entries result then job.result else result;
    } in
    if same_state job.state state then (job, []) else (
      next,
      signal_of (moved (as_str job.state) (as_str state))
          (moved (message_of job.state) (message_of state)) (written result),
    )
