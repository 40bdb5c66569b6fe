-- ===== src/Core/Pairing/Undisturbed.antt =====
-- scanbus-core/src/pairing.rs: an attempt in every order of its own moves.
use mathlib.Core.Option.{some-injective}
use scanbus_service.Common.{
  ℕ, ◌≡◌, refl, ◌∙◌, ◌==◌, ◌+◌, ◌*◌, ◌≤◌, length, length-append, Bool, true, false, Option, none,
  some, List, [], ◌∷◌, arith, Bytes, all, ◌⊎◌, inl, inr,
}
use scanbus_service.Common.Result.{Result, ok}
use scanbus_service.Common.Optional.{>>=-eq-some}
use scanbus_service.Core.PairingState
use scanbus_service.Core.PairingState.{PairingState}
use scanbus_service.Core.Progress.{Progress}
use scanbus_service.Core.Pairing.{
  Event, sent, Phase, Relay, System, pair, relay_state, complete, finish,
}
use scanbus_service.Core.Pairing.Actions.{Action, perform, run}
use scanbus_service.Core.Pairing.Stages.{is_move}
use scanbus_service.Core.Pairing.Moves.{
  reported, reports_of, verdict_of, landing, Live, goal_of, goal_kept, step_kept,
}

module _ {S : Type 0} (i : ℕ) where
  run_kept :
      (moves : List (Action S)) (s u : System S)
      → Live i s
      → all (is_move i) moves ≡ true
      → run moves s ≡ some u
      → Live i u × (goal_of i moves s ≡ goal_of i [] u)
  unfolding run
  run_kept [] s u h own e = let same = some-injective s u e in rw (← same) (h, refl)
  run_kept (a ∷ moves) s u h own e =
      let (t, step, rest) = >>=-eq-some (perform a s) (run moves) e in
      let mine : is_move i a ≡ true = ground arith in
      let (live, same) = run_kept moves t u (step_kept i h a t mine step) (ground arith) rest in
      (live, goal_kept i h a moves t mine step ∙ same)

abbrev pub is_enabled : {S : Type 0} → Option (System S) → Bool
is_enabled none = false
is_enabled (some t) = true

-- A move of the task can be made.
abbrev pub CanMove : {S : Type 0} → ℕ → System S → Type 0
CanMove {S} i s = (a : Action S) × (is_move i a ≡ true) × (is_enabled (perform a s) ≡ true)

abbrev pub HasLanded : {S : Type 0} → ℕ → PairingState × Bool × List Event → System S → Type 0
HasLanded i (st, b, l) s =
    ((s.tasks i).phase ≡ Phase.ended)
    × (s.task ≡ none)
    × (s.state ≡ st)
    × (s.paired ≡ b)
    × (s.log ≡ l)

own_number : (i : ℕ) → (i == i) ≡ true
own_number i = ground arith

module _ {S : Type 0} (i : ℕ) (s : System S) (h : Live i s) where
  queue_cases :
      (x : Result (Unit {0}) Bytes) (q : List Progress) (r : Relay)
      → (s.tasks i).phase ≡ Phase.draining x
      → (s.tasks i).queue ≡ q
      → (s.tasks i).relay ≡ r
      → CanMove i s
  unfolding perform
  queue_cases x q (Relay.sending st) at eq er = (Action.relay_send i, own_number i, ground (arith))
  queue_cases x [] Relay.receiving at eq er = (Action.relay_close i, own_number i, ground (arith))
  queue_cases x (p ∷ q) Relay.receiving at eq er =
      (Action.relay_receive i, own_number i, ground (arith))
  queue_cases x q Relay.closed at eq er = (Action.join i, own_number i, ground (arith, h.awake))

  phase_cases : (p : Phase) → (s.tasks i).phase ≡ p → CanMove i s ⊎ HasLanded i (goal_of i [] s) s
  unfolding perform
  phase_cases Phase.unborn at = absurd (ground (arith, h.shape))
  phase_cases Phase.installing at =
      inl (Action.install_return i (ok tt), own_number i, ground (arith, h.awake))
  phase_cases (Phase.draining x) at =
      inl (queue_cases x (s.tasks i).queue (s.tasks i).relay at refl refl)
  phase_cases Phase.listening at =
      inl (Action.listen_return i (ok tt), own_number i, ground (arith, h.awake))
  phase_cases Phase.saving at =
      inl (Action.save_return i (ok tt), own_number i, ground (arith, h.awake))
  phase_cases Phase.saved at = inl (Action.complete_run i, own_number i, ground arith)
  phase_cases (Phase.failing m) at = inl (Action.fail_run i, own_number i, ground arith)
  phase_cases (Phase.announcing st) at = inl (Action.announce i, own_number i, ground arith)
  phase_cases Phase.ended at =
      inr (at, h.released (ground arith), ground arith, ground arith, ground arith)

-- How many moves a task can still make without a further report.
abbrev rank : Phase → ℕ
rank Phase.installing = 6
rank (Phase.draining x) = 5
rank Phase.listening = 4
rank Phase.saving = 3
rank Phase.saved = 2
rank (Phase.failing m) = 2
rank (Phase.announcing st) = 1
rank _ = 0

abbrev in_hand : Relay → ℕ
in_hand Relay.closed = 0
in_hand Relay.receiving = 1
in_hand (Relay.sending st) = 2

abbrev weight : {S : Type 0} → ℕ → System S → ℕ
weight i s = rank (s.tasks i).phase + 2 * length (s.tasks i).queue + in_hand (s.tasks i).relay

abbrev is_report : {S : Type 0} → Action S → ℕ
is_report (Action.report j p) = 1
is_report _ = 0

abbrev pub report_count : {S : Type 0} → List (Action S) → ℕ
report_count [] = 0
report_count (a ∷ moves) = is_report a + report_count moves

module _ {S : Type 0} (i : ℕ) {s : System S} (h : Live i s) where
  step_cost :
      (a : Action S) (t : System S)
      → is_move i a ≡ true
      → perform a s ≡ some t
      → weight i t + 1 ≤ weight i s + 3 * is_report a
  unfolding perform relay_state complete finish
  step_cost (Action.report j p) t e k =
      ground (arith, h.awake, length-append (s.tasks i).queue (p ∷ []))
  step_cost a t e k = ground (arith, h.awake, h.shape)

module _ {S : Type 0} (i : ℕ) where
  run_cost :
      (moves : List (Action S)) (s u : System S)
      → Live i s
      → all (is_move i) moves ≡ true
      → run moves s ≡ some u
      → length moves + weight i u ≤ weight i s + 3 * report_count moves
  unfolding run
  run_cost [] s u h own e = let same = some-injective s u e in rw (← same) (omega arith)
  run_cost (a ∷ moves) s u h own e =
      let (t, step, rest) = >>=-eq-some (perform a s) (run moves) e in
      let mine : is_move i a ≡ true = ground arith in
      omega (
        arith,
        step_cost i h a t mine step,
        run_cost moves t u (step_kept i h a t mine step) (ground arith) rest,
      )

pair-Live :
    {S : Type 0} (s t : System S)
    → s.paired ≡ false
    → PairingState.is_in_progress s.state ≡ false
    → perform Action.pair_call s ≡ some t
    → Live s.next_task t
      × ((moves : List (Action S))
          → goal_of s.next_task moves t
            ≡ landing
                (verdict_of moves)
                false
                (reported (reports_of moves) (sent PairingState.pairing ∷ s.log)))
      × (weight s.next_task t ≡ 7)
unfolding perform pair
pair-Live s t fresh idle e = (
  record {
    awake = ground arith;
    shape = ground arith;
    settled = ground arith;
    released = ground arith;
  },
  λ moves. ground arith,
  ground arith,
)

-- An attempt that starts on an unpaired machine with none in progress and that nothing disturbs, in
-- whatever order its run and its relay move and whatever the backend and the store answer: after
-- `pair` it has made at most three moves for each report and seven more, and either a further move
-- of it is enabled, or it is over. Then the channel has carried "pairing", the states that all
-- reports imply, in their order, and one terminal state; `done` and `Paired` come right after the
-- write of the store and only if all three steps succeed, else the state keeps the first failure's
-- message; and no handle is left.
pub run-HasLanded :
    {S : Type 0} (s u : System S) (moves : List (Action S))
    → s.paired ≡ false
    → PairingState.is_in_progress s.state ≡ false
    → run (Action.pair_call ∷ moves) s ≡ some u
    → all (is_move s.next_task) moves ≡ true
    → (length moves ≤ 3 * report_count moves + 7)
      × (CanMove s.next_task u
          ⊎ HasLanded s.next_task
              (landing
                (verdict_of moves)
                false
                (reported (reports_of moves) (sent PairingState.pairing ∷ s.log)))
              u)
unfolding run
run-HasLanded s u moves fresh idle e own =
    let i = s.next_task in
    let (t, step, rest) = >>=-eq-some (perform Action.pair_call s) (run moves) e in
    let (live, from, heavy) = pair-Live s t fresh idle step in
    let (over, same) = run_kept i moves t u live own rest in
    (
      omega (arith, heavy, run_cost i moves t u live own rest),
      rw (← from moves, same) (phase_cases i u over (u.tasks i).phase refl),
    )
