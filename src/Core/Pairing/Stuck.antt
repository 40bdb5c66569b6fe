-- ===== src/Core/Pairing/Stuck.antt =====
-- scanbus-core/src/pairing.rs: `cancel` against a relay that still has a step to deliver.
use scanbus_service.Common.{ℕ, ◌≡◌, refl, true, false, none, some, List, [], ◌∷◌, Bool, all, arith}
use scanbus_service.Core.PairingState
use scanbus_service.Core.PairingState.{PairingState}
use scanbus_service.Core.Progress.{Progress, pairing_state}
use scanbus_service.Core.Pairing.{
  sent, Phase, Relay, System, update, pair, already_in_progress, cancel, set_phase,
}
use scanbus_service.Core.Pairing.Actions.{Action, perform, run}
use scanbus_service.Core.Pairing.Stages.{is_move, Runs, Leads, first_then, runs-nil}

-- The calls of `pair` and `cancel`.
abbrev pub is_pair_or_cancel : {S : Type 0} → Action S → Bool
is_pair_or_cancel Action.pair_call = true
is_pair_or_cancel Action.cancel_call = true
is_pair_or_cancel _ = false

-- The attempt of task `i` looks as if it ran, but it is over and no handle is left: the task can make no
-- move, and however often `pair` and `cancel` are called, nothing changes.
pub record IsStuck {S : Type 0} (i : ℕ) (s : System S) : Type 0 where
  pub in_progress : PairingState.is_in_progress s.state ≡ true
  pub no_handle : s.task ≡ none
  pub pair_refused : pair s ≡ (s, already_in_progress)
  pub over : (a : Action S) → is_move i a ≡ true → perform a s ≡ none
  pub stays : (calls : List (Action S)) → all is_pair_or_cancel calls ≡ true → run calls s ≡ some s

-- The run and the relay of task `i` are over, and nobody holds a handle.
record Over {S : Type 0} (i : ℕ) (st : PairingState) (s : System S) : Type 0 where
  no_handle : s.task ≡ none
  unpaired : s.paired ≡ false
  state : s.state ≡ st
  phase : (s.tasks i).phase ≡ Phase.ended
  relay : (s.tasks i).relay ≡ Relay.closed

module _ {S : Type 0} {s : System S} {i : ℕ} {st : PairingState} (h : Over i st s)
    (k : PairingState.is_in_progress st ≡ true) where
  call_kept : (a : Action S) → is_pair_or_cancel a ≡ true → perform a s ≡ some s
  unfolding perform pair cancel
  call_kept Action.pair_call e = ground (arith, h.state, h.unpaired, k)
  call_kept Action.cancel_call e = ground (arith, h.no_handle)
  call_kept a e = absurd (ground arith)

  calls_kept : (calls : List (Action S)) → all is_pair_or_cancel calls ≡ true → run calls s ≡ some s
  unfolding run
  calls_kept [] e = refl
  calls_kept (a ∷ calls) e = rw (call_kept a (ground arith)) (calls_kept calls (ground arith))

  move_refused : (a : Action S) → is_move i a ≡ true → perform a s ≡ none
  unfolding perform
  move_refused a e = ground (arith, h.phase, h.relay)

  Over-IsStuck : IsStuck i s
  unfolding pair
  Over-IsStuck = record {
    in_progress = rw (h.state) k;
    no_handle = h.no_handle;
    pair_refused = ground (arith, h.state, h.unpaired, k);
    over = move_refused;
    stays = calls_kept;
  }

-- Task `i` where nobody holds its handle.
record Loose {S : Type 0} (i : ℕ) (p : Phase) (q : List Progress) (r : Relay) (s : System S)
    : Type 0 where
  no_handle : s.task ≡ none
  unpaired : s.paired ≡ false
  phase : (s.tasks i).phase ≡ p
  queue : (s.tasks i).queue ≡ q
  relay : (s.tasks i).relay ≡ r
  aborted : (s.tasks i).aborted ≡ true

-- The state that the relay has written over the one of `cancel`.
record Overwritten {S : Type 0} (i : ℕ) (st : PairingState) (r : Relay) (s : System S)
    : Type 0 where
  no_handle : s.task ≡ none
  unpaired : s.paired ≡ false
  state : s.state ≡ st
  phase : (s.tasks i).phase ≡ Phase.ended
  queue : (s.tasks i).queue ≡ []
  relay : (s.tasks i).relay ≡ r

cancel_leads :
    {S : Type 0} (s : System S) (i : ℕ) (q : List Progress)
    → s.task ≡ some i
    → s.paired ≡ false
    → (s.tasks i).phase ≡ Phase.installing
    → (s.tasks i).queue ≡ q
    → (s.tasks i).relay ≡ Relay.receiving
    → Leads Action.cancel_call s (Loose i Phase.installing q Relay.receiving)
unfolding perform cancel
cancel_leads s i q ht hp hi hq hr = (cancel s, refl, ground arith)

module _ {S : Type 0} {s : System S} {i : ℕ} where
  drop_leads :
      (q : List Progress)
      → Loose i Phase.installing q Relay.receiving s
      → Leads (Action.drop_run i) s (Loose i Phase.ended q Relay.receiving)
  unfolding perform
  drop_leads q h = (set_phase i Phase.ended s, ground arith, ground arith)

  late_leads :
      (p : Progress) (st : PairingState)
      → pairing_state p ≡ some st
      → Loose i Phase.ended (p ∷ []) Relay.receiving s
      → Leads (Action.relay_receive i) s (Overwritten i st (Relay.sending st))
  unfolding perform
  late_leads p st e h = (
    record s {
      state = st;
      tasks = update s.tasks i (record (s.tasks i) { queue = []; relay = Relay.sending st });
    },
    ground arith,
    ground arith,
  )

  late_send_leads :
      (st : PairingState)
      → Overwritten i st (Relay.sending st) s
      → Leads (Action.relay_send i) s (Overwritten i st Relay.receiving)
  unfolding perform
  late_send_leads st h = (
    record s {
      log = sent st ∷ s.log;
      tasks = update s.tasks i (record (s.tasks i) { relay = Relay.receiving });
    },
    ground arith,
    ground arith,
  )

  late_close_leads :
      (st : PairingState)
      → Overwritten i st Relay.receiving s
      → Leads (Action.relay_close i) s (Over i st)
  unfolding perform
  late_close_leads st h = (
    record s { tasks = update s.tasks i (record (s.tasks i) { queue = []; relay = Relay.closed }) },
    ground arith,
    ground arith,
  )

-- If `cancel` comes while the last step of the installation is still in the relay's queue, the relay
-- writes that step's state over the "none" of `cancel`. The run and the relay are over then, and the
-- machine stays in progress with no handle: however often `pair` and `cancel` are called, neither
-- changes anything.
pub cancel_then_relay :
    {S : Type 0} (s : System S) (i : ℕ) (p : Progress) (st : PairingState)
    → s.task ≡ some i
    → s.paired ≡ false
    → (s.tasks i).phase ≡ Phase.installing
    → (s.tasks i).queue ≡ p ∷ []
    → (s.tasks i).relay ≡ Relay.receiving
    → pairing_state p ≡ some st
    → PairingState.is_in_progress st ≡ true
    → Runs
        (Action.cancel_call
          ∷ Action.drop_run i
          ∷ Action.relay_receive i
          ∷ Action.relay_send i
          ∷ Action.relay_close i
          ∷ [])
        s
        (IsStuck i)
cancel_then_relay s i p st ht hp hi hq hr e k =
    first_then (Loose i Phase.installing (p ∷ []) Relay.receiving) _ _ _ s
      (cancel_leads s i (p ∷ []) ht hp hi hq hr)
      λ t h1.
        first_then (Loose i Phase.ended (p ∷ []) Relay.receiving) _ _ _ t (drop_leads (p ∷ []) h1)
          λ u h2.
            first_then (Overwritten i st (Relay.sending st)) _ _ _ u (late_leads p st e h2) λ v h3.
              first_then (Overwritten i st Relay.receiving) _ _ _ v (late_send_leads st h3) λ w h4.
                first_then (Over i st) _ _ _ w (late_close_leads st h4)
                  λ x h5. runs-nil (IsStuck i) x (Over-IsStuck h5 k)
