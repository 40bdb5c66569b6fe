-- ===== src/Core/Pairing/Moves.antt =====
-- scanbus-core/src/pairing.rs: what each move of an attempt keeps.

use scanbus_service.Common.{
  ℕ, ◌≡◌, ◌||◌, Bool, true, false, not, none, some, List, [], ◌∷◌, ◌++◌, arith, Bytes, append_assoc,
  append-nil,
}
use scanbus_service.Common.Result.{Result, ok, err, ◌>>=◌}
use scanbus_service.Core.PairingState.{PairingState}
use scanbus_service.Core.Progress.{Progress, pairing_state}
use scanbus_service.Core.Pairing.{
  Event, sent, stored, Phase, Relay, System, relay_state, complete, finish,
}
use scanbus_service.Core.Pairing.Actions.{Action, perform}
use scanbus_service.Core.Pairing.Stages.{is_move}

-- The log with the states that the reports imply, newest first.
abbrev pub reported : List Progress → List Event → List Event
reported [] l = l
reported (p ∷ ps) l = reported ps (elim (pairing_state p) [ none ↦ l | some st ↦ sent st ∷ l ])

-- What the backend reports before `ensure_installed` returns, and what the backend and the store answer,
-- among some moves.
abbrev pub reports_of : {S : Type 0} → List (Action S) → List Progress
reports_of [] = []
reports_of (Action.report i p ∷ moves) = p ∷ reports_of moves
reports_of (Action.install_return i r ∷ moves) = []
reports_of (_ ∷ moves) = reports_of moves

abbrev pub installed_of : {S : Type 0} → List (Action S) → Result (Unit {0}) Bytes
installed_of [] = ok tt
installed_of (Action.install_return i r ∷ moves) = r
installed_of (_ ∷ moves) = installed_of moves

abbrev pub listened_of : {S : Type 0} → List (Action S) → Result (Unit {0}) Bytes
listened_of [] = ok tt
listened_of (Action.listen_return i r ∷ moves) = r
listened_of (_ ∷ moves) = listened_of moves

abbrev pub written_of : {S : Type 0} → List (Action S) → Result (Unit {0}) Bytes
written_of [] = ok tt
written_of (Action.save_return i r ∷ moves) = r
written_of (_ ∷ moves) = written_of moves

-- The first failure among the answers, if any.
abbrev pub verdict_of : {S : Type 0} → List (Action S) → Result (Unit {0}) Bytes
verdict_of moves = installed_of moves >>= λ u. listened_of moves >>= λ v. written_of moves

-- The state, `Paired` and the log, newest first, after the first failure or none.
abbrev pub landing : Result (Unit {0}) Bytes → Bool → List Event → PairingState × Bool × List Event
landing (ok u) b l = (PairingState.done, true, sent PairingState.done ∷ stored ∷ l)
landing (err m) b l = (PairingState.failed m, b, sent (PairingState.failed m) ∷ l)

-- The log once the relay has sent what it has in hand.
abbrev pub flushed : Relay → List Event → List Event
flushed (Relay.sending st) l = sent st ∷ l
flushed _ l = l

abbrev pub is_open : Relay → Bool
is_open Relay.closed = false
is_open _ = true

abbrev pub is_drained : List Progress → Bool
is_drained [] = true
is_drained _ = false

-- Where a task lands that stands in a phase, if the moves bring it to its end.
abbrev pub goal :
    {S : Type 0}
    → List (Action S)
    → Phase
    → List Progress
    → Relay
    → List Event
    → Bool
    → PairingState
    → PairingState × Bool × List Event
goal moves Phase.installing q r l b st =
    landing (verdict_of moves) b (reported (q ++ reports_of moves) (flushed r l))
goal moves (Phase.draining x) q r l b st =
    landing (x >>= λ u. listened_of moves >>= λ v. written_of moves) b (reported q (flushed r l))
goal moves Phase.listening q r l b st = landing (listened_of moves >>= λ v. written_of moves) b l
goal moves Phase.saving q r l b st = landing (written_of moves) b l
goal moves Phase.saved q r l b st = (PairingState.done, true, sent PairingState.done ∷ l)
goal moves (Phase.failing m) q r l b st =
    (PairingState.failed m, b, sent (PairingState.failed m) ∷ l)
goal moves (Phase.announcing x) q r l b st = (x, b, sent x ∷ l)
goal moves _ q r l b st = (st, b, l)

-- The relay is open while the backend may report, and closes only on an empty queue.
abbrev pub fits : Phase → List Progress → Relay → Bool
fits Phase.unborn q r = false
fits Phase.installing q r = is_open r
fits (Phase.draining x) q r = is_open r || is_drained q
fits _ q r = not (is_open r)

-- The handle is gone once the run has taken its last lock.
abbrev pub is_past : Phase → Bool
is_past (Phase.announcing st) = true
is_past Phase.ended = true
is_past _ = false

-- The state that a run has taken its last lock for.
abbrev pub state_in : Phase → PairingState → PairingState
state_in (Phase.announcing x) st = x
state_in _ st = st

pub record Live {S : Type 0} (i : ℕ) (s : System S) : Type 0 where
  pub awake : (s.tasks i).aborted ≡ false
  pub shape : fits (s.tasks i).phase (s.tasks i).queue (s.tasks i).relay ≡ true
  pub settled : state_in (s.tasks i).phase s.state ≡ s.state
  pub released : is_past (s.tasks i).phase ≡ true → s.task ≡ none

abbrev pub goal_of :
    {S : Type 0} → ℕ → List (Action S) → System S → PairingState × Bool × List Event
goal_of i moves s =
    goal moves (s.tasks i).phase (s.tasks i).queue (s.tasks i).relay s.log s.paired s.state

module _ {S : Type 0} (i : ℕ) {s : System S} (h : Live i s) where
  awake_kept :
      (a : Action S) (t : System S)
      → is_move i a ≡ true
      → perform a s ≡ some t
      → (t.tasks i).aborted ≡ false
  unfolding perform relay_state complete finish
  awake_kept a t e k = ground (arith, h.awake, h.shape)

  shape_kept :
      (a : Action S) (t : System S)
      → is_move i a ≡ true
      → perform a s ≡ some t
      → fits (t.tasks i).phase (t.tasks i).queue (t.tasks i).relay ≡ true
  unfolding perform relay_state complete finish
  shape_kept a t e k = ground (arith, h.awake, h.shape)

  settled_kept :
      (a : Action S) (t : System S)
      → is_move i a ≡ true
      → perform a s ≡ some t
      → state_in (t.tasks i).phase t.state ≡ t.state
  unfolding perform relay_state complete finish
  settled_kept a t e k = ground (arith, h.awake, h.shape, h.settled)

  released_kept :
      (a : Action S) (t : System S)
      → is_move i a ≡ true
      → perform a s ≡ some t
      → is_past (t.tasks i).phase ≡ true
      → t.task ≡ none
  unfolding perform relay_state complete finish
  released_kept a t e k past = ground (arith, h.awake, h.shape, h.released)

  pub goal_kept :
      (a : Action S) (moves : List (Action S)) (t : System S)
      → is_move i a ≡ true
      → perform a s ≡ some t
      → goal_of i (a ∷ moves) s ≡ goal_of i moves t
  unfolding perform relay_state complete finish
  goal_kept (Action.report j p) moves t e k =
      ground (arith, h.awake, append_assoc (s.tasks i).queue (p ∷ []) (reports_of moves))
  goal_kept (Action.relay_receive j) moves t e k = ground (arith, h.awake, h.shape)
  goal_kept (Action.relay_send j) moves t e k = ground (arith, h.awake, h.shape)
  goal_kept (Action.relay_close j) moves t e k = ground (arith, h.awake, h.shape)
  goal_kept (Action.join j) moves t e k = ground (arith, h.awake, h.shape)
  goal_kept (Action.install_return j r) moves t e k =
      ground (arith, h.awake, append-nil (s.tasks i).queue)
  goal_kept a moves t e k = ground (arith, h.awake, h.shape, h.settled)

  pub step_kept :
      (a : Action S) (t : System S) → is_move i a ≡ true → perform a s ≡ some t → Live i t
  step_kept a t e k = record {
    awake = awake_kept a t e k;
    shape = shape_kept a t e k;
    settled = settled_kept a t e k;
    released = released_kept a t e k;
  }
