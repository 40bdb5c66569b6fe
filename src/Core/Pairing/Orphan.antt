-- ===== src/Core/Pairing/Orphan.antt =====
-- scanbus-core/src/pairing.rs: a second attempt beside a failed one that has not returned.
use scanbus_service.Common.{ℕ, ◌≡◌, ◌<◌, refl, false, none, [], ◌∷◌, arith, Bytes}
use scanbus_service.Common.Result.{Result, err}
use scanbus_service.Core.PairingState.{PairingState}
use scanbus_service.Core.Pairing.{
  sent, Phase, Relay, System, update, cancel, finish, set_phase, pair,
}
use scanbus_service.Core.Pairing.Actions.{Action, perform}
use scanbus_service.Core.Pairing.Stages.{Runs, Leads, first_then, runs-nil}

-- Task `j` goes on and the machine has no handle to stop it by.
pub record IsOrphan {S : Type 0} (j : ℕ) (s : System S) : Type 0 where
  pub phase : (s.tasks j).phase ≡ Phase.installing
  pub awake : (s.tasks j).aborted ≡ false
  pub no_handle : s.task ≡ none
  pub cancel_idle : cancel s ≡ s

-- Task `i` beside the attempt `j` that a second `pair` has started.
record Beside {S : Type 0} (i j : ℕ) (p : Phase) (r : Relay) (s : System S) : Type 0 where
  phase : (s.tasks i).phase ≡ p
  queue : (s.tasks i).queue ≡ []
  relay : (s.tasks i).relay ≡ r
  awake : (s.tasks i).aborted ≡ false
  second : (s.tasks j).phase ≡ Phase.installing
  second_awake : (s.tasks j).aborted ≡ false

-- Run `i`, whose backend has reported a failure that the relay has just taken up.
pub record Reported {S : Type 0} (i : ℕ) (m : Bytes) (s : System S) : Type 0 where
  pub unpaired : s.paired ≡ false
  pub state : s.state ≡ PairingState.failed m
  pub phase : (s.tasks i).phase ≡ Phase.installing
  pub queue : (s.tasks i).queue ≡ []
  pub relay : (s.tasks i).relay ≡ Relay.sending (PairingState.failed m)
  pub awake : (s.tasks i).aborted ≡ false

module _ {S : Type 0} {s : System S} {i j : ℕ} (apart : i < j) where
  pair-Beside :
      (m : Bytes)
      → s.next_task ≡ j
      → Reported i m s
      → Leads Action.pair_call s
          (Beside i j Phase.installing (Relay.sending (PairingState.failed m)))
  unfolding perform pair
  pair-Beside m e h = ((pair s).0, refl, ground arith)

  send-Beside :
      (st : PairingState)
      → Beside i j Phase.installing (Relay.sending st) s
      → Leads (Action.relay_send i) s (Beside i j Phase.installing Relay.receiving)
  unfolding perform
  send-Beside st h = (
    record s {
      log = sent st ∷ s.log;
      tasks = update s.tasks i (record (s.tasks i) { relay = Relay.receiving });
    },
    ground arith,
    ground arith,
  )

  return-Beside :
      (r : Result (Unit {0}) Bytes)
      → Beside i j Phase.installing Relay.receiving s
      → Leads (Action.install_return i r) s (Beside i j (Phase.draining r) Relay.receiving)
  unfolding perform
  return-Beside r h = (set_phase i (Phase.draining r) s, ground arith, ground arith)

  close-Beside :
      (r : Result (Unit {0}) Bytes)
      → Beside i j (Phase.draining r) Relay.receiving s
      → Leads (Action.relay_close i) s (Beside i j (Phase.draining r) Relay.closed)
  unfolding perform
  close-Beside r h = (
    record s { tasks = update s.tasks i (record (s.tasks i) { queue = []; relay = Relay.closed }) },
    ground arith,
    ground arith,
  )

  join-Beside :
      (m : Bytes)
      → Beside i j (Phase.draining (err m)) Relay.closed s
      → Leads (Action.join i) s (Beside i j (Phase.failing m) Relay.closed)
  unfolding perform
  join-Beside m h = (set_phase i (Phase.failing m) s, ground arith, ground arith)

  fail-Beside :
      (m : Bytes)
      → Beside i j (Phase.failing m) Relay.closed s
      → Leads (Action.fail_run i) s (IsOrphan j)
  unfolding perform finish cancel
  fail-Beside m h = (
    set_phase i (Phase.announcing (PairingState.failed m)) (finish (PairingState.failed m) s),
    ground arith,
    ground arith,
  )

-- If `pair` is called between the backend's report of a failure and its return, a second run starts
-- beside the first; when the first then ends, `finish` takes away the second's handle, and `cancel`
-- does nothing although the second run goes on.
pub pair_after_failed :
    {S : Type 0} (s : System S) (i : ℕ) (m : Bytes)
    → i < s.next_task
    → Reported i m s
    → Runs
        (Action.pair_call
          ∷ Action.relay_send i
          ∷ Action.install_return i (err m)
          ∷ Action.relay_close i
          ∷ Action.join i
          ∷ Action.fail_run i
          ∷ [])
        s
        (IsOrphan s.next_task)
pair_after_failed s i m h r =
    let j = s.next_task in
    first_then (Beside i j Phase.installing (Relay.sending (PairingState.failed m))) _ _ _ s
      (pair-Beside h m refl r)
      λ t h1.
        first_then (Beside i j Phase.installing Relay.receiving) _ _ _ t (send-Beside h _ h1)
          λ u h2.
            first_then (Beside i j (Phase.draining (err m)) Relay.receiving) _ _ _ u
              (return-Beside h (err m) h2)
              λ v h3.
                first_then (Beside i j (Phase.draining (err m)) Relay.closed) _ _ _ v
                  (close-Beside h (err m) h3)
                  λ w h4.
                    first_then (Beside i j (Phase.failing m) Relay.closed) _ _ _ w
                      (join-Beside h m h4)
                      λ x h5.
                        first_then (IsOrphan j) _ _ _ x (fail-Beside h m h5)
                          λ y h6. runs-nil (IsOrphan j) y h6
