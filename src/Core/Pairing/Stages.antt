-- ===== src/Core/Pairing/Stages.antt =====
-- scanbus-core/src/pairing.rs: actions and schedules that are enabled, and what they lead to.
use scanbus_service.Common.{ℕ, ◌≡◌, refl, Bool, false, some, List, [], ◌∷◌, ◌==◌}
use scanbus_service.Core.Pairing.{System}
use scanbus_service.Core.Pairing.Actions.{Action, perform, run}

-- An action is enabled and leads to a system with `P`.
abbrev pub Leads : {S : Type 0} → Action S → System S → (System S → Type 0) → Type 0
Leads {S} a s P = (u : System S) × (perform a s ≡ some u) × P u

-- The moves of task `i`: what the backend and the store answer it, and the steps of its run and relay.
abbrev pub is_move : {S : Type 0} → ℕ → Action S → Bool
is_move i (Action.report j p) = j == i
is_move i (Action.install_return j r) = j == i
is_move i (Action.listen_return j r) = j == i
is_move i (Action.save_return j r) = j == i
is_move i (Action.join j) = j == i
is_move i (Action.complete_run j) = j == i
is_move i (Action.fail_run j) = j == i
is_move i (Action.announce j) = j == i
is_move i (Action.drop_run j) = j == i
is_move i (Action.relay_receive j) = j == i
is_move i (Action.relay_send j) = j == i
is_move i (Action.relay_close j) = j == i
is_move i _ = false

abbrev pub Runs : {S : Type 0} → List (Action S) → System S → (System S → Type 0) → Type 0
Runs {S} moves s P = (u : System S) × (run moves s ≡ some u) × P u

module _ {S : Type 0} where
  pub runs-nil : (P : System S → Type 0) (s : System S) → P s → Runs [] s P
  unfolding run
  runs-nil P s p = (s, refl, p)

  -- One action in front of a schedule.
  pub first_then :
      (P Q : System S → Type 0) (a : Action S) (moves : List (Action S)) (s : System S)
      → Leads a s P
      → ((u : System S) → P u → Runs moves u Q)
      → Runs (a ∷ moves) s Q
  unfolding run
  first_then P Q a moves s (u, e, p) k = let (v, f, q) = k u p in (v, rw e f, q)
