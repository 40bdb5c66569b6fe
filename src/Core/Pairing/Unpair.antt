-- ===== src/Core/Pairing/Unpair.antt =====
-- scanbus-core/src/pairing.rs: `unpair` from end to end, with what the backend and the store answer.
use scanbus_service.Common.{
  ◌≡◌, Bool, true, false, ◌&&◌, Option, none, some, ◌∷◌, arith, if◌then◌else◌, Bytes,
}
use scanbus_service.Common.Result.{Result, ok, err}
use scanbus_service.Common.Optional.{or_else}
use scanbus_service.Core.PairingState.{PairingState}
use scanbus_service.Core.Pairing.{
  sent, forgot, System, pair, started, unpair_begin, unpair_clear, emit,
}

-- The scanner is not paired, or the store kept the pairing; both name the scanner.
pub data UnpairError (S : Type 0) : Type 0 where
  not_paired : S → UnpairError S
  store : S → Bytes → UnpairError S

abbrev pub is_ok {ℓ κ} : {A : Type ℓ} {E : Type κ} → Result A E → Bool
is_ok (ok a) = true
is_ok (err e) = false

-- `.err()`
abbrev pub error_of : Result (Unit {0}) Bytes → Option Bytes
error_of (ok u) = none
error_of (err e) = some e

module _ {S : Type 0} (stopped forgotten written : Result (Unit {0}) Bytes) where
  -- Behind the store's answer: the pairing is gone from memory, and the channel says so.
  forget_pairing : System S → System S × Result (Option Bytes) (UnpairError S)
  forget_pairing s = elim written [
    | err m ↦ (s, err (store s.scanner m))
    | ok u ↦ (
      emit PairingState.idle (unpair_clear (record s { log = forgot ∷ s.log })).0,
      ok (or_else (error_of forgotten) (error_of stopped)),
    )
  ]

  -- `unpair`, when no other call comes in between
  unfoldable pub unpair : System S → System S × Result (Option Bytes) (UnpairError S)
  unfolding forget_pairing unpair_begin unpair_clear
  unpair s = if s.paired then forget_pairing (unpair_begin s).0 else (s, err (not_paired s.scanner))

  -- An `unpair` with no other call in between succeeds exactly if the scanner is paired and the store
  -- forgets it, whatever the backend answers; after it the scanner is paired exactly if it was and the
  -- store refuses.
  pub unpair_iff :
      (s : System S)
      → (is_ok (unpair s).1 ≡ (s.paired && is_ok written))
        × ((unpair s).0.paired
            ≡ (if s.paired then (if is_ok written then false else true) else false))
  unfolding unpair
  unpair_iff s = (ground arith, ground arith)

  -- After a successful `unpair` the store has been written before the one announcement of "none",
  -- the backend's failure to forget is reported rather than its failure to stop, and the scanner can
  -- be paired again.
  pub unpair_ok :
      (s : System S) (reported : Option Bytes)
      → (unpair s).1 ≡ ok reported
      → ((unpair s).0.log ≡ sent PairingState.idle ∷ forgot ∷ s.log)
        × (reported ≡ or_else (error_of forgotten) (error_of stopped))
        × ((unpair s).0.task ≡ none)
        × ((pair (unpair s).0).1 ≡ started)
  unfolding unpair pair
  unpair_ok s r h = (ground arith, ground arith, ground arith, ground arith)
