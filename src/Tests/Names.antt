-- ===== src/Tests/Names.antt =====
-- The names that states and profiles have on the bus.
use scanbus_service.Common.{codes}
use scanbus_service.Core.PairingState.{PairingState}

abbrev code : PairingState
code = PairingState.awaiting_confirmation (codes "1234")
