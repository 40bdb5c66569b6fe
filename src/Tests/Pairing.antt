-- ===== src/Tests/Pairing.antt =====
-- The pairing machine on small schedules; the scanner's snapshot is a number.
use scanbus_service.Common.{
  ℕ, ◌≡◌, ◌≤◌, ◌+◌, ◌*◌, ◌⊎◌, length, List, refl, true, false, [], ◌∷◌, Option, none, some, Bytes,
  codes, arith,
}
use scanbus_service.Common.Result.{Result, ok, err}
use scanbus_service.Core.PairingState.{PairingState}
use scanbus_service.Core.Progress.{Progress}
use scanbus_service.Core.Pairing.{sent, System, new, pair}
use scanbus_service.Core.Pairing.Actions.{Action, perform, run}
use scanbus_service.Core.Pairing.Moves.{verdict_of, reports_of, reported, landing}
use scanbus_service.Core.Pairing.Undisturbed.{CanMove, HasLanded, report_count, run-HasLanded}
use scanbus_service.Core.Pairing.Durability.{announced_in_order, is_durable, done_after_save}
use scanbus_service.Core.Pairing.Orphan.{IsOrphan, Reported, pair_after_failed}
use scanbus_service.Core.Pairing.Stages.{Runs}
use scanbus_service.Core.Pairing.Stuck.{IsStuck, cancel_then_relay}
use scanbus_service.Core.Pairing.Unpair.{unpair, unpair_iff, is_ok}

abbrev blank : System ℕ
blank = new 7

abbrev states : Option (System ℕ) → System ℕ
states none = blank
states (some s) = s

-- An attempt with two steps, which the relay takes up late, and which succeeds.
abbrev moves : List (Action ℕ)
moves =
    Action.report 0 (Progress.checking (codes "looking"))
    ∷ Action.report 0 Progress.ready
    ∷ Action.relay_receive 0
    ∷ Action.install_return 0 (ok tt)
    ∷ Action.relay_send 0
    ∷ Action.relay_receive 0
    ∷ Action.relay_close 0
    ∷ Action.join 0
    ∷ Action.listen_return 0 (ok tt)
    ∷ Action.save_return 0 (ok tt)
    ∷ Action.complete_run 0
    ∷ Action.announce 0
    ∷ []

abbrev finished : System ℕ
finished = states (run (Action.pair_call ∷ moves) blank)

done_after_save_example :
    (announced_in_order finished.log ≡ true)
    × (finished.paired ≡ true → is_durable finished.log ≡ true)
unfolding run perform pair
done_after_save_example = done_after_save 7 (Action.pair_call ∷ moves) finished refl

run-HasLanded_example :
    (length moves ≤ 3 * report_count moves + 7)
    × (CanMove 0 finished
        ⊎ HasLanded 0
            (landing
              (verdict_of moves)
              false
              (reported (reports_of moves) (sent PairingState.pairing ∷ [])))
            finished)
unfolding run perform pair
run-HasLanded_example = run-HasLanded blank finished moves refl refl refl refl

-- A step waits in the relay's queue.
abbrev waiting : System ℕ
waiting =
    states
      (run (Action.pair_call ∷ Action.report 0 (Progress.checking (codes "looking")) ∷ []) blank)

cancel_then_relay_example :
    Runs
      (Action.cancel_call
        ∷ Action.drop_run 0
        ∷ Action.relay_receive 0
        ∷ Action.relay_send 0
        ∷ Action.relay_close 0
        ∷ [])
      waiting
      (IsStuck 0)
unfolding run perform pair
cancel_then_relay_example =
    cancel_then_relay waiting 0 (Progress.checking (codes "looking")) PairingState.pairing refl refl
      refl refl refl refl refl

-- The relay has taken up a failure.
abbrev told : System ℕ
told = states (
    run
      (Action.pair_call
        ∷ Action.report 0 (Progress.failed (codes "jam"))
        ∷ Action.relay_receive 0
        ∷ [])
      blank)

told-Reported : Reported 0 (codes "jam") told
unfolding run perform pair
told-Reported = record {
  unpaired = refl;
  state = refl;
  phase = refl;
  queue = refl;
  relay = refl;
  awake = refl;
}

pair_after_failed_example :
    Runs
      (Action.pair_call
        ∷ Action.relay_send 0
        ∷ Action.install_return 0 (err (codes "jam"))
        ∷ Action.relay_close 0
        ∷ Action.join 0
        ∷ Action.fail_run 0
        ∷ [])
      told
      (IsOrphan told.next_task)
unfolding run perform pair
pair_after_failed_example = pair_after_failed told 0 (codes "jam") (omega arith) told-Reported

abbrev paired : System ℕ
paired = record blank { paired = true; state = PairingState.done }

abbrev reached : Result (Unit {0}) Bytes
reached = ok tt

unpair_iff_example :
    (is_ok (unpair reached (err (codes "gone")) reached paired).1 ≡ true)
    × ((unpair reached (err (codes "gone")) reached paired).0.paired ≡ false)
unpair_iff_example = unpair_iff reached (err (codes "gone")) reached paired
