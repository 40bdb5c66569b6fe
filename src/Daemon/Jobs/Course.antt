-- ===== src/Daemon/Jobs/Course.antt =====
-- scanbus-daemon/src/jobs.rs: the whole course of a scan, and how it ends.
use scanbus_service.Common.{
  ℕ, zero, suc, ◌+◌, ◌≡◌, ◌∙◌, ap, ◌≤◌, ◌<◌, refl, Bool, true, false, not, ◌&&◌, Option, none, some,
  List, [], ◌∷◌, ◌++◌, Bytes, codes, arith, beq, ◌==◌, if◌then◌else◌, ltb,
}
use scanbus_service.Common.Decimal.{max_u32}
use scanbus_service.Common.Result.{ok}
use scanbus_service.Core.JobState.{JobState, as_str, message_of}
use scanbus_service.Core.Profile.{ProfileKind}
use scanbus_service.Core.Value.{Dict}
use scanbus_service.Daemon.Jobs.{
  Item, Publication, Processed, Scan, Captured, run, fetched_then, receive, after_page, prepend,
  counted, publish, published, finish, conclude, outcome_of, verdict, has_profile, first_job,
  stopped_early, saturating_succ,
}
use scanbus_service.Daemon.Jobs.Object.{
  Job1, Signal, set_page_count, transition, same_state, moved, written, no_entries,
}

-- One page taken before `rest`, which the processor's end cuts off.
unfoldable pub one_more : Bool → ℕ × Option Bytes → ℕ × Option Bytes
one_more true rest = (1, some stopped_early)
one_more false (n, stop) = (suc n, stop)

-- How many pages a scan takes off the stream, and why it stopped before the end, if it did.
unfoldable pub pages_taken : Bool → List Item → ℕ × Option Bytes
pages_taken processing [] = (0, none)
pages_taken processing (Item.failed message ∷ items) = (0, some message)
pages_taken processing (Item.page taken ∷ items) =
    one_more (processing && not taken) (pages_taken processing items)

-- The counts `k + 1`, … , `k + n`.
pub counts : ℕ → ℕ → List Signal
counts k zero = []
counts k (suc n) = Signal.page_count (suc k) ∷ counts (suc k) n

abbrev text : Bytes → Option Bytes
text message = moved [] message

abbrev processing : Signal
processing = Signal.changed (some (codes "processing")) none none

abbrev failed : Bytes → Signal
failed message = Signal.changed (some (codes "error")) (text message) none

-- What is announced once the pages are in: `processing` unless the capture failed, then the end.
pub closing : Option ProfileKind → Processed → Option Bytes → List Signal
closing none processed (some message) = failed message ∷ []
closing (some kind) (Processed.success result) (some message) =
    Signal.changed (some (codes "error")) (text message) (written result) ∷ []
closing (some kind) (Processed.rejected why) (some message) = failed message ∷ []
closing (some kind) (Processed.panicked why) (some message) = failed message ∷ []
closing none processed none = processing ∷ Signal.changed (some (codes "done")) none none ∷ []
closing (some kind) (Processed.success result) none =
    processing ∷ Signal.changed (some (codes "done")) none (written result) ∷ []
closing (some kind) (Processed.rejected why) none = processing ∷ failed why ∷ []
closing (some kind) (Processed.panicked why) none =
    processing ∷ failed (codes "profile processing task failed: " ++ why) ∷ []

-- The state and the result a job ends with.
pub outcome : Option ProfileKind → Processed → Option Bytes → JobState × Dict
outcome none processed (some message) = (JobState.error message, [])
outcome (some kind) (Processed.success result) (some message) = (JobState.error message, result)
outcome (some kind) (Processed.rejected why) (some message) = (JobState.error message, [])
outcome (some kind) (Processed.panicked why) (some message) = (JobState.error message, [])
outcome none processed none = (JobState.done, [])
outcome (some kind) (Processed.success result) none = (JobState.done, result)
outcome (some kind) (Processed.rejected why) none = (JobState.error why, [])
outcome (some kind) (Processed.panicked why) none =
    (JobState.error (codes "profile processing task failed: " ++ why), [])

abbrev pub ended : Job1 → JobState × Dict → Job1
ended job last = record job { state = last.0; result = last.1 }

no_entries-else : (result : Dict) → (if no_entries result then [] else result) ≡ result
no_entries-else [] = refl
no_entries-else (entry ∷ result) = refl

conclude-outcome :
    (profile : Option ProfileKind) (processed : Processed) (job : Job1) (stop : Option Bytes)
    → job.state ≡ JobState.receiving
    → job.result ≡ []
    → conclude profile processed job stop
      ≡ (ended job (outcome profile processed stop), closing profile processed stop)
unfolding conclude outcome closing outcome_of verdict transition same_state as_str message_of beq
conclude-outcome none processed job (some message) h e = rw (h, e) refl
conclude-outcome (some kind) (Processed.success result) job (some message) h e =
    rw (h, e, no_entries-else result) refl
conclude-outcome (some kind) (Processed.rejected why) job (some message) h e = rw (h, e) refl
conclude-outcome (some kind) (Processed.panicked why) job (some message) h e = rw (h, e) refl
conclude-outcome none processed job none h e = rw (h, e) refl
conclude-outcome (some kind) (Processed.success result) job none h e =
    rw (h, e, no_entries-else result) refl
conclude-outcome (some kind) (Processed.rejected why) job none h e = rw (h, e) refl
conclude-outcome (some kind) (Processed.panicked why) job none h e = rw (h, e) refl

abbrev with_count : Job1 → ℕ → Job1
with_count job n = record job { page_count = n }

counted-succ :
    (scan : Scan) (job : Job1) (count : ℕ)
    → count < max_u32
    → counted scan (some (with_count job count)) (saturating_succ count)
      ≡ (some (with_count job (suc count)), Signal.page_count (suc count) ∷ [])
unfolding counted set_page_count
counted-succ scan job count h =
    let below : ltb count max_u32 ≡ true = ground arith in
    let differs : (count == suc count) ≡ false = ground arith in rw (below, differs) refl

one_more-counts :
    (job : Job1) (count : ℕ) (dropped : Bool) (more : ℕ × Option Bytes) (rest : Captured)
    → (dropped ≡ false
        → rest
          ≡ Captured.left
              (some (with_count job (suc count + more.0)))
              more.1
              (counts (suc count) more.0))
    → after_page dropped
        (some (with_count job (suc count)))
        (Signal.page_count (suc count) ∷ [])
        rest
      ≡ Captured.left
          (some (with_count job (count + (one_more dropped more).0)))
          (one_more dropped more).1
          (counts count (one_more dropped more).0)
unfolding one_more after_page prepend counts
one_more-counts job count true more rest h = ground arith
one_more-counts job count false more rest h = rw (h refl) (ground arith)

one_more-bound :
    (count : ℕ) (dropped : Bool) (more : ℕ × Option Bytes)
    → count + (one_more dropped more).0 ≤ max_u32
    → (count < max_u32) × (dropped ≡ false → suc count + more.0 ≤ max_u32)
unfolding one_more
one_more-bound count true more h = (omega arith, λ e. absurd (cc))
one_more-bound count false more h = (omega arith, λ e. omega arith)

receive-counts :
    (scan : Scan) (items : List Item) (job : Job1) (count : ℕ)
    → count + (pages_taken (has_profile scan) items).0 ≤ max_u32
    → receive scan items (some (with_count job count)) count
      ≡ Captured.left
          (some (with_count job (count + (pages_taken (has_profile scan) items).0)))
          (pages_taken (has_profile scan) items).1
          (counts count (pages_taken (has_profile scan) items).0)
unfolding receive pages_taken counts
receive-counts scan [] job count small = ground arith
receive-counts scan (Item.failed message ∷ items) job count small = ground arith
receive-counts scan (Item.page taken ∷ items) job count small =
    let more = pages_taken (has_profile scan) items in
    let dropped = has_profile scan && not taken in
    let bounds = one_more-bound count dropped more small in
    let succ : saturating_succ count ≡ suc count = ground arith in
    rw (counted-succ scan job count bounds.0, succ)
      (one_more-counts job count dropped more
        (receive scan items (some (with_count job (suc count))) (suc count))
        (λ e. receive-counts scan items job (suc count) (bounds.1 e)))

first_taken :
    (scan : Scan) (dropped : Bool) (more : ℕ × Option Bytes) (rest : Captured) {n : ℕ}
    {stop : Option Bytes}
    → one_more dropped more ≡ (suc n, stop)
    → (1 + more.0 ≤ max_u32
        → rest ≡ Captured.left (some (first_job scan (1 + more.0))) more.1 (counts 1 more.0))
    → suc n ≤ max_u32
    → after_page dropped (some (first_job scan 1)) (Signal.exported (first_job scan 1) ∷ []) rest
      ≡ Captured.left
          (some (first_job scan (suc n)))
          stop
          (Signal.exported (first_job scan 1) ∷ counts 1 n)
unfolding one_more after_page prepend counts
first_taken scan true more rest e h small = ground arith
first_taken scan false (m, why) rest e h small = ground (arith, h)

receive-first :
    (scan : Scan) (taken : Bool) (items : List Item) {n : ℕ} {stop : Option Bytes}
    → scan.publication ≡ Publication.served
    → pages_taken (has_profile scan) (Item.page taken ∷ items) ≡ (suc n, stop)
    → suc n ≤ max_u32
    → receive scan (Item.page taken ∷ items) none 0
      ≡ Captured.left
          (some (first_job scan (suc n)))
          stop
          (Signal.exported (first_job scan 1) ∷ counts 1 n)
unfolding receive pages_taken counted publish published
receive-first scan taken items h e small =
    let more = pages_taken (has_profile scan) items in
    rw (h) (
      first_taken scan (has_profile scan && not taken) more _ e
        (λ bound. receive-counts scan items (first_job scan 1) 1 bound) small)

-- A scan whose job object is served, that takes `n` pages, at least one and no more than a `u32`
-- counts, off its stream and stops there for `stop`, returns its job id, and the bus sees in this
-- order: the object with one page, the counts from 2 to `n`, `processing` unless the capture failed,
-- the end, and the removal. The object ends with `n` pages and with the state and the result that
-- the profile, the processor's answer and `stop` make.
pub run_course :
    (scan : Scan) (items : List Item) (n : ℕ) (stop : Option Bytes)
    → scan.fetched ≡ ok items
    → scan.publication ≡ Publication.served
    → pages_taken (has_profile scan) items ≡ (suc n, stop)
    → suc n ≤ max_u32
    → run scan ≡ record {
      job = some scan.job_id;
      object = some (ended (first_job scan (suc n)) (outcome scan.profile scan.processed stop));
      signals =
          Signal.exported (first_job scan 1) ∷ counts 1 n
          ++ (closing scan.profile scan.processed stop ++ (Signal.removed ∷ []));
    }
unfolding run fetched_then finish pages_taken
run_course scan [] n stop h served taken small = absurd (cc)
run_course scan (Item.failed message ∷ items) n stop h served taken small = absurd (cc)
run_course scan (Item.page kept ∷ items) n stop h served taken small =
    ap (fetched_then scan) h
    ∙ ap (finish scan) (receive-first scan kept items served taken small)
    ∙ rw (conclude-outcome scan.profile scan.processed (first_job scan (suc n)) stop refl refl) refl
