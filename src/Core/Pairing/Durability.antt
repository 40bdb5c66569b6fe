-- ===== src/Core/Pairing/Durability.antt =====
-- scanbus-core/src/pairing.rs: the store and the announcement of a pairing, in every interleaving.
use mathlib.Core.Option.{some-injective}
use mathlib.Core.Path.{subst}
use scanbus_service.Common.{
  ℕ, ◌≡◌, refl, Bool, true, false, ◌&&◌, some, List, [], ◌∷◌, arith, if◌then◌else◌,
}
use scanbus_service.Common.Optional.{>>=-eq-some}
use scanbus_service.Core.PairingState.{PairingState}
use scanbus_service.Core.Pairing.{
  Event, sent, stored, restored, forgot, Phase, Relay, Call, System, pair, cancel, set_scanner,
  restore_paired, restore_failed, unpair_begin, unpair_clear, complete, finish, new,
}
use scanbus_service.Core.Pairing.Actions.{Action, perform, run}

abbrev pub is_done : PairingState → Bool
is_done PairingState.done = true
is_done _ = false

-- The log is kept newest first.
abbrev pub is_durable : List Event → Bool
is_durable [] = false
is_durable (stored ∷ l) = true
is_durable (restored ∷ l) = true
is_durable (sent st ∷ l) = is_durable l
is_durable (forgot ∷ l) = is_durable l

-- Every `Done` on the channel has a write of the store, or a restored one, before it.
abbrev pub announced_in_order : List Event → Bool
announced_in_order [] = true
announced_in_order (sent st ∷ l) =
    (if is_done st then is_durable l else true) && announced_in_order l
announced_in_order (stored ∷ l) = announced_in_order l
announced_in_order (restored ∷ l) = announced_in_order l
announced_in_order (forgot ∷ l) = announced_in_order l

abbrev pub phase_claims : Phase → Bool
phase_claims Phase.saved = true
phase_claims (Phase.announcing st) = is_done st
phase_claims _ = false

abbrev pub relay_claims : Relay → Bool
relay_claims (Relay.sending st) = is_done st
relay_claims _ = false

abbrev pub call_claims : Call → Bool
call_claims (Call.replying st) = is_done st
call_claims _ = false

pub record Inv {S : Type 0} (s : System S) : Type 0 where
  pub paired_stored : s.paired ≡ true → is_durable s.log ≡ true
  pub state_stored : is_done s.state ≡ true → is_durable s.log ≡ true
  pub tasks_stored : (i : ℕ) → phase_claims (s.tasks i).phase ≡ true → is_durable s.log ≡ true
  pub relays_quiet : (i : ℕ) → relay_claims (s.tasks i).relay ≡ false
  pub calls_stored : (i : ℕ) → call_claims (s.calls i) ≡ true → is_durable s.log ≡ true
  pub ordered : announced_in_order s.log ≡ true

-- The task or the call that an action is about.
abbrev subject : {S : Type 0} → Action S → ℕ
subject (Action.unpair_call i) = i
subject (Action.restore_paired_call i) = i
subject (Action.restore_failed_call i m) = i
subject (Action.store_forget i r) = i
subject (Action.clear i) = i
subject (Action.read_state i) = i
subject (Action.reply i) = i
subject (Action.report i p) = i
subject (Action.install_return i r) = i
subject (Action.listen_return i r) = i
subject (Action.save_return i r) = i
subject (Action.join i) = i
subject (Action.complete_run i) = i
subject (Action.fail_run i) = i
subject (Action.announce i) = i
subject (Action.drop_run i) = i
subject (Action.relay_receive i) = i
subject (Action.relay_send i) = i
subject (Action.relay_close i) = i
subject _ = 0

module _ {S : Type 0} {s : System S} (inv : Inv s) where
  open inv use {paired_stored, state_stored, tasks_stored, relays_quiet, calls_stored, ordered}

  paired_kept :
      (a : Action S) (t : System S)
      → perform a s ≡ some t
      → t.paired ≡ true
      → is_durable t.log ≡ true
  unfolding perform pair cancel set_scanner restore_paired restore_failed unpair_begin unpair_clear
      complete finish
  paired_kept Action.pair_call t e h = ground arith
  paired_kept a t e h = ground (arith, tasks_stored (subject a))

  state_kept :
      (a : Action S) (t : System S)
      → perform a s ≡ some t
      → is_done t.state ≡ true
      → is_durable t.log ≡ true
  unfolding perform pair cancel set_scanner restore_paired restore_failed unpair_begin unpair_clear
      complete finish
  state_kept Action.pair_call t e h = ground arith
  state_kept a t e h = ground (arith, tasks_stored (subject a), relays_quiet (subject a))

  relay_receive-phase :
      (i : ℕ) (t : System S)
      → perform (Action.relay_receive i) s ≡ some t
      → (j : ℕ) → ((t.tasks j).phase ≡ (s.tasks j).phase) × (t.log ≡ s.log)
  unfolding perform
  relay_receive-phase i t e j = ground (arith)

  tasks_kept :
      (a : Action S) (t : System S)
      → perform a s ≡ some t
      → (j : ℕ) → phase_claims (t.tasks j).phase ≡ true
      → is_durable t.log ≡ true
  unfolding perform pair cancel set_scanner restore_paired restore_failed unpair_begin unpair_clear
      complete finish
  tasks_kept Action.pair_call t e j h = ground (arith, tasks_stored j)
  tasks_kept (Action.relay_receive i) t e j h =
      ground (arith, tasks_stored j, relay_receive-phase i t e j)
  tasks_kept a t e j h = ground (arith, tasks_stored j, tasks_stored (subject a))

  relays_kept :
      (a : Action S) (t : System S)
      → perform a s ≡ some t
      → (j : ℕ) → relay_claims (t.tasks j).relay ≡ false
  unfolding perform pair cancel set_scanner restore_paired restore_failed unpair_begin unpair_clear
      complete finish
  relays_kept Action.pair_call t e j = ground (arith, relays_quiet j)
  relays_kept a t e j = ground (arith, relays_quiet j, relays_quiet (subject a))

  calls_kept :
      (a : Action S) (t : System S)
      → perform a s ≡ some t
      → (j : ℕ) → call_claims (t.calls j) ≡ true
      → is_durable t.log ≡ true
  unfolding perform pair cancel set_scanner restore_paired restore_failed unpair_begin unpair_clear
      complete finish
  calls_kept Action.pair_call t e j h = ground (arith, calls_stored j)
  calls_kept a t e j h = ground (arith, calls_stored j, calls_stored (subject a))

  order_kept :
      (a : Action S) (t : System S) → perform a s ≡ some t → announced_in_order t.log ≡ true
  unfolding perform pair cancel set_scanner restore_paired restore_failed unpair_begin unpair_clear
      complete finish
  order_kept Action.pair_call t e = ground arith
  order_kept a t e =
      ground (arith, tasks_stored (subject a), calls_stored (subject a), relays_quiet (subject a))

  -- Every action keeps the invariant.
  pub perform-Inv : (a : Action S) (t : System S) → perform a s ≡ some t → Inv t
  perform-Inv a t e = record {
    paired_stored = paired_kept a t e;
    state_stored = state_kept a t e;
    tasks_stored = tasks_kept a t e;
    relays_quiet = relays_kept a t e;
    calls_stored = calls_kept a t e;
    ordered = order_kept a t e;
  }

module _ {S : Type 0} where
  pub run-Inv : (moves : List (Action S)) (s t : System S) → Inv s → run moves s ≡ some t → Inv t
  unfolding run
  run-Inv [] s t inv e = subst Inv (some-injective s t e) inv
  run-Inv (a ∷ moves) s t inv e =
      let (u, step, rest) = >>=-eq-some (perform a s) (run moves) e in
      run-Inv moves u t (perform-Inv inv a u step) rest

  pub new-Inv : (x : S) → Inv (new x)
  new-Inv x = record {
    paired_stored = cc;
    state_stored = cc;
    tasks_stored = λ i. cc;
    relays_quiet = λ i. refl;
    calls_stored = λ i. cc;
    ordered = refl;
  }

-- In every interleaving of calls, runs and relays from a new machine, each `Done` on the transition
-- channel comes after a successful `save_paired` or a restored pairing, and `Paired` is true only
-- after one.
pub done_after_save :
    {S : Type 0} (x : S) (moves : List (Action S)) (t : System S)
    → run moves (new x) ≡ some t
    → (announced_in_order t.log ≡ true) × (t.paired ≡ true → is_durable t.log ≡ true)
done_after_save x moves t e =
    let inv = run-Inv moves (new x) t (new-Inv x) e in (inv.ordered, inv.paired_stored)
