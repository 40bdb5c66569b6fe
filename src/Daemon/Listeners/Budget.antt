-- ===== src/Daemon/Listeners/Budget.antt =====
-- scanbus-daemon/src/listeners.rs: what a listener hands on and how long it tries.
use mathlib.Core.Option.{some-injective}
use scanbus_service.Common.{
  ℕ, zero, suc, ◌+◌, ◌≤◌, ◌≡◌, refl, sym, ap, ◌∙◌, Option, none, some, List, [], ◌∷◌, arith, leb,
  Bool-cases, inl, inr,
}
use scanbus_service.Common.Optional.{◌>>=◌, >>=-eq-some}
use scanbus_service.Daemon.Listeners.{
  ButtonEvent, RestartPolicy, Task, Happening, saturate, delay, budget_below, budget, retry, step,
  default_policy, shifted, factor,
}

abbrev after : Option ButtonEvent → List ButtonEvent → List ButtonEvent
after none events = events
after (some event) events = event ∷ events

-- `run`: the task that is left, all the time slept, and the presses handed to the sink.
unfoldable pub course : RestartPolicy → Task → List Happening → Option (Task × ℕ × List ButtonEvent)
course policy task [] = some (task, 0, [])
course policy task (happening ∷ trace) = step policy task happening >>= λ now.
    course policy now.0 trace >>= λ later. some (later.0, now.1 + later.1, after now.2 later.2)

-- The presses among what happens.
unfoldable pub presses : List Happening → List ButtonEvent
presses [] = []
presses (Happening.press event ∷ trace) = event ∷ presses trace
presses (Happening.ended ∷ trace) = presses trace
presses (Happening.restarted ∷ trace) = presses trace
presses (Happening.refused ∷ trace) = presses trace

-- The delays of the attempts below `n`, added up.
pub waited : RestartPolicy → ℕ → ℕ
waited policy zero = 0
waited policy (suc n) = waited policy n + delay policy n

saturate-waited :
    (policy : RestartPolicy) (n : ℕ) → saturate (waited policy n) ≡ budget_below policy n
unfolding waited budget_below
saturate-waited policy zero = refl
saturate-waited policy (suc n) = let h = saturate-waited policy n in ground arith

-- The restarts that a task has behind it since the last press.
abbrev standing : RestartPolicy → Task → ℕ
standing policy (Task.reading attempt) = attempt
standing policy (Task.sleeping attempt) = attempt
standing policy Task.over = policy.attempts

step-presses :
    (policy : RestartPolicy) (task next : Task) (happening : Happening) (slept : ℕ)
    (handed : Option ButtonEvent) (trace : List Happening)
    → step policy task happening ≡ some (next, slept, handed)
    → presses (happening ∷ trace) ≡ after handed (presses trace)
unfolding step presses
step-presses policy (Task.reading a) next (Happening.press event) slept handed trace h =
    ground arith
step-presses policy (Task.reading a) next Happening.ended slept handed trace h = ground arith
step-presses policy (Task.sleeping a) next Happening.restarted slept handed trace h = ground arith
step-presses policy (Task.sleeping a) next Happening.refused slept handed trace h = ground arith
step-presses policy task next happening slept handed trace h = absurd (cc)

retry-waited :
    (policy : RestartPolicy) (attempt : ℕ)
    → attempt ≤ policy.attempts
    → (waited policy attempt + (retry policy attempt).1
        ≡ waited policy (standing policy (retry policy attempt).0))
      × (standing policy (retry policy attempt).0 ≤ policy.attempts)
unfolding retry waited
retry-waited policy attempt bound = elim (Bool-cases (leb policy.attempts attempt)) [
  | inl spent ↦
      let all : attempt ≡ policy.attempts = ground arith in
      rw (spent) (rw (all) (omega arith), omega arith)
  | inr left ↦ rw (left) (refl, ground arith)
]

step-waited :
    (policy : RestartPolicy) (task next : Task) (happening : Happening) (slept : ℕ)
    → step policy task happening ≡ some (next, slept, none)
    → standing policy task ≤ policy.attempts
    → (waited policy (standing policy task) + slept ≡ waited policy (standing policy next))
      × (standing policy next ≤ policy.attempts)
unfolding step
step-waited policy (Task.reading a) next Happening.ended slept h bound =
    ground (arith, retry-waited policy a bound)
step-waited policy (Task.sleeping a) next Happening.restarted slept h bound = ground arith
step-waited policy (Task.sleeping a) next Happening.refused slept h bound =
    ground (arith, retry-waited policy a bound)
step-waited policy task next happening slept h bound = absurd (cc)

-- Every trigger is handed on exactly once, in the order they arrive: whatever the task does, the
-- presses that reach the sink are the presses that happened.
pub course-presses :
    (policy : RestartPolicy) (task last : Task) (trace : List Happening) (slept : ℕ)
    (handed : List ButtonEvent)
    → course policy task trace ≡ some (last, slept, handed)
    → handed ≡ presses trace
unfolding course presses
course-presses policy task last [] slept handed h = ground arith
course-presses policy task last (happening ∷ trace) slept handed h =
    let (now, e, h1) = >>=-eq-some (step policy task happening) _ h in
    let (later, f, h2) = >>=-eq-some (course policy now.0 trace) _ h1 in
    let rest = course-presses policy now.0 later.0 trace later.1 later.2 f in
    let here = step-presses policy task now.0 happening now.1 now.2 trace e in
    let parts = some-injective _ _ h2 in
    sym (ap (λ r. r.2) parts) ∙ ap (after now.2) rest ∙ sym here

after-nil :
    (event : Option ButtonEvent) (events : List ButtonEvent)
    → after event events ≡ []
    → (event ≡ none) × (events ≡ [])
after-nil none events h = (refl, h)
after-nil (some event) events h = absurd (cc)

course-waited :
    (policy : RestartPolicy) (task last : Task) (trace : List Happening) (slept : ℕ)
    (handed : List ButtonEvent)
    → course policy task trace ≡ some (last, slept, handed)
    → presses trace ≡ []
    → standing policy task ≤ policy.attempts
    → (waited policy (standing policy task) + slept ≡ waited policy (standing policy last))
      × (standing policy last ≤ policy.attempts)
unfolding course
course-waited policy task last [] slept handed h quiet bound = ground arith
course-waited policy task last (happening ∷ trace) slept handed h quiet bound =
    let (now, e, h1) = >>=-eq-some (step policy task happening) _ h in
    let (later, f, h2) = >>=-eq-some (course policy now.0 trace) _ h1 in
    let parts = some-injective _ _ h2 in
    let here = step-presses policy task now.0 happening now.1 now.2 trace e in
    let (idle, still) = after-nil now.2 (presses trace) (sym here ∙ quiet) in
    let (one, low) =
      step-waited policy task now.0 happening now.1 (e ∙ ap (λ o. some (now.0, now.1, o)) idle)
        bound in
    let (more, high) = course-waited policy now.0 later.0 trace later.1 later.2 f still low in
    let reached : later.0 ≡ last = ap (λ r. r.0) parts in
    let total : now.1 + later.1 ≡ slept = ap (λ r. r.1) parts in rw (← reached) (omega arith, high)

-- A listener that just read a press, or just started, and gives up without another press, has slept
-- the policy's budget in all, where the budget stops at the longest duration.
pub course_over :
    (policy : RestartPolicy) (trace : List Happening) (slept : ℕ) (handed : List ButtonEvent)
    → course policy (Task.reading 0) trace ≡ some (Task.over, slept, handed)
    → presses trace ≡ []
    → saturate slept ≡ budget policy
unfolding budget waited
course_over policy trace slept handed h quiet =
    let (waits, bound) =
      course-waited policy (Task.reading 0) Task.over trace slept handed h quiet (omega arith) in
    let all : slept ≡ waited policy policy.attempts = omega arith in
    ap (λ n. saturate n) all ∙ saturate-waited policy policy.attempts

-- Six attempts of the default policy take 15.75 seconds.
default_budget : budget default_policy ≡ 15750000000
unfolding budget budget_below delay factor shifted
default_budget = refl
