-- ===== src/Core/Progress.antt =====
-- scanbus-core/src/backend/event.rs: the steps of an installation, and what triggers a scan.
use scanbus_service.Common.{ℕ, Option, none, some, Bytes}
use scanbus_service.Core.PairingState.{PairingState}

pub data Progress : Type 0 where
  checking : (message : Bytes) → Progress
  installing : (dependency : Bytes) (percent : Option ℕ) → Progress
  ready : Progress
  awaiting_confirmation : (code : Bytes) → Progress
  failed : (message : Bytes) → Progress

-- The `PairingState` that a step implies.
abbrev pub pairing_state : Progress → Option PairingState
pairing_state (Progress.checking m) = some PairingState.pairing
pairing_state (Progress.installing p n) = some PairingState.installing_backend
pairing_state Progress.ready = none
pairing_state (Progress.awaiting_confirmation c) = some (PairingState.awaiting_confirmation c)
pairing_state (Progress.failed m) = some (PairingState.failed m)
