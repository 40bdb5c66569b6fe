-- ===== src/Daemon/Jobs.antt =====
-- scanbus-daemon/src/jobs.rs and dbus/job.rs: one scan, from the fetched pages to the end of its object.
-- What the backend, the bus and the profile processor answer is data of the scan. A signal is one
-- emission on the bus. A page is its place in the stream: the pixels are not looked at here.
pub mod Object
pub mod Mirror
pub mod Course
pub mod Silence
use scanbus_service.Common.{
  ℕ, suc, ◌≡◌, refl, Bool, true, false, not, ◌||◌, ◌&&◌, Option, none, some, List, [], ◌∷◌, ◌++◌,
  Bytes, codes, beq, ltb, if◌then◌else◌,
}
use scanbus_service.Common.Decimal.{max_u32}
use scanbus_service.Common.Int.{ℤ, pos, negsuc}
use scanbus_service.Common.Result.{Result, ok, err}
use scanbus_service.Core.JobState.{JobState, is_error}
use scanbus_service.Core.Path
use scanbus_service.Core.Profile.{ProfileKind}
use scanbus_service.Core.Value.{Dict}
use scanbus_service.Daemon.Jobs.Object
use scanbus_service.Daemon.Jobs.Object.{Job1, Signal, host_triggered, set_page_count, transition}

-- What started a scan.
pub data JobTrigger : Type 0 where
  button : ℕ → JobTrigger
  host : JobTrigger

abbrev pub max_i32 : ℕ
max_i32 = 2147483647

unfoldable pub button_property : JobTrigger → ℤ
button_property (JobTrigger.button index) = if ltb max_i32 index then pos max_i32 else pos index
button_property JobTrigger.host = host_triggered

-- What the object server makes of the job object: `add` fails, the object is gone when its
-- interface is asked for, or it is served.
pub data Publication : Type 0 where
  refused : Publication
  vanished : Publication
  served : Publication

-- One item of the page stream, and whether the processor's channel takes the page.
pub data Item : Type 0 where
  page : (taken : Bool) → Item
  failed : (message : Bytes) → Item

-- What joining the processor's task gives.
pub data Processed : Type 0 where
  success : Dict → Processed
  rejected : (message : Bytes) → Processed
  panicked : (message : Bytes) → Processed

pub record Scan : Type 0 where
  pub scanner : Bytes
  pub job_id : ℕ
  pub trigger : JobTrigger
  pub profile : Option ProfileKind
  pub fetched : Result (List Item) Bytes
  pub publication : Publication
  pub processed : Processed

abbrev pub saturating_succ : ℕ → ℕ
saturating_succ n = if ltb n max_u32 then suc n else n

abbrev pub first_job : Scan → ℕ → Job1
first_job scan count = Object.new scan.scanner (button_property scan.trigger) scan.profile count

unfoldable pub published : Publication → Job1 → Option Job1 × List Signal
published Publication.refused job = (none, [])
published Publication.vanished job = (none, Signal.exported job ∷ [])
published Publication.served job = (some job, Signal.exported job ∷ [])

-- `publish`: the object and what reached the bus.
unfoldable pub publish : Scan → ℕ → Option Job1 × List Signal
publish scan count = published scan.publication (first_job scan count)

-- How the receiving loop ends: the scan is abandoned, or the loop is left with the object, if
-- there is one, and the failure, if there was one.
pub data Captured : Type 0 where
  abandoned : List Signal → Captured
  left : Option Job1 → Option Bytes → List Signal → Captured

abbrev pub stopped_early : Bytes
stopped_early = codes "the profile processor stopped before capture ended"

abbrev pub has_profile : Scan → Bool
has_profile scan = elim scan.profile [ none ↦ false | some kind ↦ true ]

unfoldable pub prepend : List Signal → Captured → Captured
prepend signals (Captured.abandoned more) = Captured.abandoned (signals ++ more)
prepend signals (Captured.left job failure more) = Captured.left job failure (signals ++ more)

-- The first page publishes the object; the next ones are counted on it.
unfoldable pub counted : Scan → Option Job1 → ℕ → Option Job1 × List Signal
counted scan none count = publish scan count
counted scan (some job) count =
    let (next, signals) = set_page_count job count in (some next, signals)

-- A page that could not be published ends the scan; one that the processor does not take, the loop.
unfoldable pub after_page : Bool → Option Job1 → List Signal → Captured → Captured
after_page dropped none signals rest = Captured.abandoned signals
after_page true (some job) signals rest = Captured.left (some job) (some stopped_early) signals
after_page false (some job) signals rest = prepend signals rest

-- `while let Some(item) = pages.next().await`
unfoldable pub receive : Scan → List Item → Option Job1 → ℕ → Captured
receive scan [] job count = Captured.left job none []
receive scan (Item.failed message ∷ items) job count = Captured.left job (some message) []
receive scan (Item.page taken ∷ items) job count =
    let (next, signals) = counted scan job (saturating_succ count) in
    let rest = receive scan items next (saturating_succ count) in
    after_page (has_profile scan && not taken) next signals rest

pub data ProcessorOutcome : Type 0 where
  nothing : ProcessorOutcome
  success : Dict → ProcessorOutcome
  failed : Bytes → ProcessorOutcome

unfoldable pub outcome_of : Option ProfileKind → Processed → ProcessorOutcome
outcome_of none processed = ProcessorOutcome.nothing
outcome_of (some kind) (Processed.success result) = ProcessorOutcome.success result
outcome_of (some kind) (Processed.rejected message) = ProcessorOutcome.failed message
outcome_of (some kind) (Processed.panicked message) =
    ProcessorOutcome.failed (codes "profile processing task failed: " ++ message)

abbrev pub partial : ProcessorOutcome → Dict
partial (ProcessorOutcome.success result) = result
partial _ = []

-- The terminal state and result of a capture that did not fail.
unfoldable pub verdict : Option ProfileKind → ProcessorOutcome → JobState × Dict
verdict profile (ProcessorOutcome.success result) = (JobState.done, result)
verdict none ProcessorOutcome.nothing = (JobState.done, [])
verdict (some kind) ProcessorOutcome.nothing =
    (JobState.error (codes "profile processing failed"), [])
verdict profile (ProcessorOutcome.failed message) = (JobState.error message, [])

-- What follows the loop, on a published object.
unfoldable pub conclude : Option ProfileKind → Processed → Job1 → Option Bytes → Job1 × List Signal
conclude profile processed job (some message) =
    transition job (JobState.error message) (partial (outcome_of profile processed))
conclude profile processed job none =
    let (working, announced) = transition job JobState.processing [] in
    let (state, result) = verdict profile (outcome_of profile processed) in
    let (final, last) = transition working state result in (final, announced ++ last)

-- What a scan leaves: the id `run` returns, the object, and everything the bus saw.
pub record Report : Type 0 where
  pub job : Option ℕ
  pub object : Option Job1
  pub signals : List Signal

-- The end of `run`; `retire` removes the object once the retention window is up.
unfoldable pub finish : Scan → Captured → Report
finish scan (Captured.abandoned signals) = record { job = none; object = none; signals = signals }
finish scan (Captured.left none failure signals) = record {
  job = none;
  object = none;
  signals = signals;
}
finish scan (Captured.left (some job) failure signals) =
    let (final, last) = conclude scan.profile scan.processed job failure in
    record {
      job = some scan.job_id;
      object = some final;
      signals = signals ++ (last ++ (Signal.removed ∷ []));
    }

unfoldable pub fetched_then : Scan → Result (List Item) Bytes → Report
fetched_then scan (err message) = record { job = none; object = none; signals = [] }
fetched_then scan (ok items) = finish scan (receive scan items none 0)

unfoldable pub run : Scan → Report
run scan = fetched_then scan scan.fetched
