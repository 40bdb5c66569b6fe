-- ===== src/Daemon/Jobs/Mirror.antt =====
-- scanbus-daemon/src/dbus/job.rs: what a client that follows the signals of a job knows of it.
use mathlib.Core.Option.{some-injective}
use scanbus_service.Common.{
  ℕ, ◌≡◌, refl, Bool, true, false, Option, none, some, List, [], ◌∷◌, ◌++◌, Bytes, arith, beq→eq,
}
use scanbus_service.Common.Result.{Result, ok, err}
use scanbus_service.Core.JobState.{JobState, as_str, message_of}
use scanbus_service.Core.Profile.{ProfileKind}
use scanbus_service.Core.Value.{Dict}
use scanbus_service.Daemon.Jobs.{
  Item, Publication, Processed, Scan, Captured, run, fetched_then, after_page, receive, finish,
  conclude, publish, published, counted, prepend, outcome_of, verdict, saturating_succ, partial,
}
use scanbus_service.Daemon.Jobs.Object.{Job1, Signal, set_page_count, transition, same_state}

-- The properties of a job that move, as a client reads them.
pub record View : Type 0 where
  pub state : Bytes
  pub error : Bytes
  pub page_count : ℕ
  pub result : Dict

abbrev pub view : Job1 → View
view job = record {
  state = as_str job.state;
  error = message_of job.state;
  page_count = job.page_count;
  result = job.result;
}

abbrev default_to {ℓ} : {A : Type ℓ} → A → Option A → A
default_to a none = a
default_to a (some b) = b

abbrev pub follow : View → Signal → View
follow v (Signal.exported job) = view job
follow v (Signal.page_count count) = record v { page_count = count }
follow v (Signal.changed state error result) = record v {
  state = default_to v.state state;
  error = default_to v.error error;
  result = default_to v.result result;
}
follow v Signal.removed = v

unfoldable pub replay : List Signal → View → View
replay [] v = v
replay (s ∷ signals) v = replay signals (follow v s)

replay-append : (xs ys : List Signal) (v : View) → replay (xs ++ ys) v ≡ replay ys (replay xs v)
unfolding replay
replay-append [] ys v = refl
replay-append (x ∷ xs) ys v = replay-append xs ys (follow v x)

set_page_count-replay :
    (job : Job1) (count : ℕ)
    → replay (set_page_count job count).1 (view job) ≡ view (set_page_count job count).0
unfolding set_page_count replay
set_page_count-replay job count = ground arith

transition-replay :
    (job : Job1) (state : JobState) (result : Dict)
    → replay (transition job state result).1 (view job) ≡ view (transition job state result).0
unfolding transition replay same_state
transition-replay job state result = ground (
  arith,
  beq→eq (as_str job.state) (as_str state),
  beq→eq (message_of job.state) (message_of state),
)

-- Whoever knew `v` and saw the signals of the loop knows the object it left.
abbrev Follows : View → Captured → Type 0
Follows v (Captured.abandoned signals) = Unit {0}
Follows v (Captured.left none stop signals) = Unit {0}
Follows v (Captured.left (some job) stop signals) = replay signals v ≡ view job

prepend-Follows :
    (signals : List Signal) (c : Captured) (v : View)
    → Follows (replay signals v) c
    → Follows v (prepend signals c)
unfolding prepend
prepend-Follows signals (Captured.abandoned more) v h = tt
prepend-Follows signals (Captured.left none stop more) v h = tt
prepend-Follows signals (Captured.left (some job) stop more) v h =
    rw (replay-append signals more v) h

-- One page: what follows from the object it left.
after_page-Follows :
    (dropped : Bool) (next : Job1) (signals : List Signal) (rest : Captured) (v : View)
    → replay signals v ≡ view next
    → Follows (view next) rest
    → Follows v (after_page dropped (some next) signals rest)
unfolding after_page
after_page-Follows true next signals rest v seen h = seen
after_page-Follows false next signals rest v seen h = prepend-Follows signals rest v (rw (seen) h)

receive-Follows :
    (scan : Scan) (items : List Item) (job : Job1) (count : ℕ)
    → Follows (view job) (receive scan items (some job) count)
unfolding receive counted replay
receive-Follows scan [] job count = refl
receive-Follows scan (Item.failed message ∷ items) job count = refl
receive-Follows scan (Item.page taken ∷ items) job count =
    after_page-Follows _ _ _ _ (view job) (set_page_count-replay job (saturating_succ count))
      (receive-Follows scan items _ (saturating_succ count))

conclude-replay :
    (profile : Option ProfileKind) (processed : Processed) (job : Job1) (stop : Option Bytes)
    → replay (conclude profile processed job stop).1 (view job)
      ≡ view (conclude profile processed job stop).0
unfolding conclude
conclude-replay profile processed job (some message) =
    transition-replay job (JobState.error message) (partial (outcome_of profile processed))
conclude-replay profile processed job none =
    let last = verdict profile (outcome_of profile processed) in
    let working = transition job JobState.processing [] in
    rw
      (
        replay-append working.1 (transition working.0 last.0 last.1).1 (view job),
        transition-replay job JobState.processing [],
      )
      (transition-replay working.0 last.0 last.1)

first_page-Follows :
    (p : Publication) (job : Job1) (dropped : Bool) (rest : Captured) (v : View)
    → ((next : Job1) → (published p job).0 ≡ some next → Follows (view next) rest)
    → Follows v (after_page dropped (published p job).0 (published p job).1 rest)
unfolding published after_page replay
first_page-Follows Publication.refused job dropped rest v h = tt
first_page-Follows Publication.vanished job dropped rest v h = tt
first_page-Follows Publication.served job dropped rest v h =
    after_page-Follows dropped job (Signal.exported job ∷ []) rest v refl (h job refl)

fresh-Follows : (scan : Scan) (items : List Item) (v : View) → Follows v (receive scan items none 0)
unfolding receive counted publish
fresh-Follows scan [] v = tt
fresh-Follows scan (Item.failed message ∷ items) v = tt
fresh-Follows scan (Item.page taken ∷ items) v =
    first_page-Follows scan.publication _ _ _ v
      (λ next e. rw (e) (receive-Follows scan items next 1))

finish-replay :
    (scan : Scan) (c : Captured) (v : View) (job : Job1)
    → Follows v c
    → (finish scan c).object ≡ some job
    → replay (finish scan c).signals v ≡ view job
unfolding finish replay
finish-replay scan (Captured.abandoned signals) v job h e = absurd (cc)
finish-replay scan (Captured.left none stop signals) v job h e = absurd (cc)
finish-replay scan (Captured.left (some before) stop signals) v job h e =
    let last = conclude scan.profile scan.processed before stop in
    let final : last.0 ≡ job = some-injective _ _ e in
    rw
      (
        replay-append signals (last.1 ++ (Signal.removed ∷ [])) v,
        h,
        replay-append last.1 (Signal.removed ∷ []) (view before),
        conclude-replay scan.profile scan.processed before stop,
        final,
      )
      refl

fetched_then-replay :
    (scan : Scan) (fetched : Result (List Item) Bytes) (v : View) (job : Job1)
    → (fetched_then scan fetched).object ≡ some job
    → replay (fetched_then scan fetched).signals v ≡ view job
unfolding fetched_then
fetched_then-replay scan (err message) v job h = absurd (cc)
fetched_then-replay scan (ok items) v job h =
    finish-replay scan (receive scan items none 0) v job (fresh-Follows scan items v) h

-- When a scan leaves a job object, whoever applies the signals of the scan in their order, whatever
-- he knew before, holds the state, error, page count and result of that object at the end.
pub run-replay :
    (scan : Scan) (v : View) (job : Job1)
    → (run scan).object ≡ some job
    → replay (run scan).signals v ≡ view job
unfolding run
run-replay scan v job h = fetched_then-replay scan scan.fetched v job h
