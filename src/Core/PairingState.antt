-- ===== src/Core/PairingState.antt =====
-- scanbus-core/src/model/state.rs: `PairingState`, where a scanner is in the pairing process.
use scanbus_service.Common.{
  ◌≡◌, ◌↔◌, refl, Bool, true, false, [], Bytes, codes, beq, beq→eq, if◌then◌else◌, arith,
}
use scanbus_service.Common.Result.{Result, ok, err}
use scanbus_service.Core.Names.{ParseError}

pub data PairingState : Type 0 where
  idle : PairingState
  pairing : PairingState
  installing_backend : PairingState
  awaiting_confirmation : (code : Bytes) → PairingState
  done : PairingState
  failed : (message : Bytes) → PairingState

unfoldable pub as_str : PairingState → Bytes
as_str PairingState.idle = codes "none"
as_str PairingState.pairing = codes "pairing"
as_str PairingState.installing_backend = codes "installing_backend"
as_str (PairingState.awaiting_confirmation code) = codes "awaiting_confirmation"
as_str PairingState.done = codes "done"
as_str (PairingState.failed message) = codes "failed"

unfoldable pub pairing_error : PairingState → Bytes
pairing_error (PairingState.failed message) = message
pairing_error _ = []

unfoldable pub pairing_info : PairingState → Bytes
pairing_info (PairingState.awaiting_confirmation code) = code
pairing_info _ = []

unfoldable pub from_dbus : Bytes → Bytes → Bytes → Result PairingState ParseError
from_dbus state error info =
    if beq state (codes "none")
    then ok PairingState.idle
    else if beq state (codes "pairing")
    then ok PairingState.pairing
    else if beq state (codes "installing_backend")
    then ok PairingState.installing_backend
    else if beq state (codes "awaiting_confirmation")
    then ok (PairingState.awaiting_confirmation info)
    else if beq state (codes "done")
    then ok PairingState.done
    else if beq state (codes "failed")
    then ok (PairingState.failed error)
    else err (record { kind = "PairingState"; value = state })

abbrev pub is_in_progress : PairingState → Bool
is_in_progress PairingState.pairing = true
is_in_progress PairingState.installing_backend = true
is_in_progress (PairingState.awaiting_confirmation _) = true
is_in_progress _ = false

abbrev pub is_awaiting : PairingState → Bool
is_awaiting (PairingState.awaiting_confirmation _) = true
is_awaiting _ = false

abbrev pub is_failed : PairingState → Bool
is_failed (PairingState.failed _) = true
is_failed _ = false

from_dbus→as_str :
    (str e i : Bytes) (s : PairingState)
    → from_dbus str e i ≡ ok s
    → (as_str s ≡ str)
      × (pairing_error s ≡ (if is_failed s then e else []))
      × (pairing_info s ≡ (if is_awaiting s then i else []))
unfolding from_dbus as_str pairing_error pairing_info
from_dbus→as_str str e i s h = ground (
  arith,
  beq→eq str (codes "none"),
  beq→eq str (codes "pairing"),
  beq→eq str (codes "installing_backend"),
  beq→eq str (codes "awaiting_confirmation"),
  beq→eq str (codes "done"),
  beq→eq str (codes "failed"),
)

as_str→from_dbus :
    (e i : Bytes) (s : PairingState)
    → pairing_error s ≡ (if is_failed s then e else [])
    → pairing_info s ≡ (if is_awaiting s then i else [])
    → from_dbus (as_str s) e i ≡ ok s
unfolding from_dbus as_str pairing_error pairing_info beq
as_str→from_dbus e i PairingState.idle h k = refl
as_str→from_dbus e i PairingState.pairing h k = refl
as_str→from_dbus e i PairingState.installing_backend h k = refl
as_str→from_dbus e i (PairingState.awaiting_confirmation c) h k = rw k
as_str→from_dbus e i PairingState.done h k = refl
as_str→from_dbus e i (PairingState.failed m) h k = rw h

-- The three D-Bus properties read back as a pairing state exactly if the string is that state's
-- name, the error is kept for "failed" alone and the code for "awaiting_confirmation" alone.
pub pairing_from_dbus_iff :
    (str e i : Bytes) (s : PairingState)
    → (from_dbus str e i ≡ ok s) ↔ (
        (as_str s ≡ str)
        × (pairing_error s ≡ (if is_failed s then e else []))
        × (pairing_info s ≡ (if is_awaiting s then i else [])))
pairing_from_dbus_iff str e i s =
    (from_dbus→as_str str e i s, λ p. rw (← p.0) (as_str→from_dbus e i s p.1 p.2))
