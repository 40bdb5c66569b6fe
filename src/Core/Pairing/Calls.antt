-- ===== src/Core/Pairing/Calls.antt =====
-- scanbus-core/src/pairing.rs: what `pair` and `cancel` do when they are called.
use scanbus_service.Common.{ℕ, ◌≡◌, ◌↔◌, true, false, none, some, ◌∷◌, arith, if◌then◌else◌}
use scanbus_service.Core.PairingState
use scanbus_service.Core.PairingState.{PairingState}
use scanbus_service.Core.Pairing.{
  sent, System, update, pair, started, already_in_progress, already_paired, cancel, fresh_task,
}

-- A second `pair()` right after the first starts nothing: whatever the machine was, the second call
-- leaves it as it stands and says which of the two idempotency rules applied.
pub pair-pair :
    {S : Type 0} (s : System S)
    → ((pair (pair s).0).0 ≡ (pair s).0)
      × ((pair (pair s).0).1 ≡ (if s.paired then already_paired else already_in_progress))
unfolding pair
pair-pair s = (ground arith, ground arith)

-- `pair` starts a run exactly if the scanner is not paired and no attempt is in progress.
pub pair_iff :
    {S : Type 0} (s : System S)
    → ((pair s).1 ≡ started) ↔ ((s.paired ≡ false) × (PairingState.is_in_progress s.state ≡ false))
unfolding pair
pair_iff s = ground arith

-- When `pair` starts a run, it adds exactly one task, which works on the current snapshot, changes no
-- other task, keeps the new task's handle, and moves the machine to `pairing`.
pub pair_started :
    {S : Type 0} (s : System S)
    → (pair s).1 ≡ started
    → ((pair s).0.tasks ≡ update s.tasks s.next_task (fresh_task s.scanner))
      × ((pair s).0.task ≡ some s.next_task)
      × ((pair s).0.state ≡ PairingState.pairing)
unfolding pair
pair_started s h = ground arith

-- `cancel` on a machine that holds a handle drops the handle and aborts its task, and a further
-- `cancel` does nothing. The machine is then not in progress, and "none" is announced, once, exactly if
-- it was in progress before.
pub cancel_lem :
    {S : Type 0} (s : System S) (i : ℕ)
    → s.task ≡ some i
    → ((cancel s).task ≡ none)
      × (cancel (cancel s) ≡ cancel s)
      × (((cancel s).tasks i).aborted ≡ true)
      × (PairingState.is_in_progress (cancel s).state ≡ false)
      × ((cancel s).log
          ≡ (if PairingState.is_in_progress s.state then sent PairingState.idle ∷ s.log else s.log))
unfolding cancel
cancel_lem s i h = (ground arith, ground arith, ground arith, ground arith, ground arith)
