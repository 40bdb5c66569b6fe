-- ===== src/Tests/Brother.antt =====
-- A key press of a Brother panel.
use scanbus_service.Common.{
  beq, split, split_once, strip_prefix, strip_last, ◌≡◌, ◌⊎◌, ◌++◌, refl, List, [], ◌∷◌, none, some,
  Bytes, codes, All, IsByte, arith,
}
use scanbus_service.Common.Result.{ok}
use scanbus_service.Common.Utf8.{is_utf8}
use scanbus_service.Brother.Event
use scanbus_service.Brother.Event.{
  KeyPress, event_of, parse_press, expect, parse_address, parse_octet,
}
use scanbus_service.Common.Decimal.{parse_uint}
use scanbus_service.Brother.Event.Datagram.{press_datagram, parse-IsPress}
use scanbus_service.Brother.Event.Press.{IsPress}
use scanbus_service.Brother.Fields.{unquote, field, AreSeparable}
use scanbus_service.Brother.Frame
use scanbus_service.Brother.Frame.{Frame, to_datagram, has_nul, declared_part, checked}
use scanbus_service.Brother.Frame.Wire.{IsSendable, parse-to_datagram}
use scanbus_service.Brother.Function
use scanbus_service.Brother.Function.{from_token, Function, lookup_iff}

abbrev short : Frame
short = record { id = 1; code = 1; payload = codes "A=1" }

short-IsSendable : IsSendable short
unfolding has_nul is_utf8
short-IsSendable = record { counted = omega arith; no_nul = refl; text = refl }

parse-to_datagram_example :
    (Frame.parse (to_datagram short) ≡ ok short)
    × (Frame.parse (to_datagram short ++ 0 ∷ []) ≡ ok short)
parse-to_datagram_example = parse-to_datagram short short-IsSendable

abbrev received : Bytes
received = 1 ∷ 0 ∷ 3 ∷ 1 ∷ 65 ∷ 61 ∷ 49 ∷ 0 ∷ []

received-bytes : All IsByte received
received-bytes = ground arith

abbrev fields : List (Bytes × Bytes)
fields = (codes "U", codes "x") ∷ (codes "F", codes "y=z") ∷ []

fields-AreSeparable : AreSeparable fields
fields-AreSeparable = ground arith

abbrev payload : Bytes
payload = codes "TYPE=BR;USER=jean;FUNC=IMAGE;APPNUM=1;CLIENT=10.0.0.4"

abbrev press : KeyPress
press = record {
  user = codes "jean";
  function = Function.image;
  client = (10, 0, 0, 4);
  host = none;
  appnum = some 1;
  device = none;
}

payload-bytes : All IsByte (press_datagram payload)
unfolding to_datagram
payload-bytes = ground arith

parse-IsPress_example :
    (text : Bytes) × IsPress text press
    × ((press_datagram payload ≡ press_datagram text)
        ⊎ (press_datagram payload ≡ press_datagram text ++ 0 ∷ []))
unfolding Event.parse event_of Frame.parse to_datagram declared_part checked has_nul is_utf8
    parse_press expect field from_token Function.as_str beq parse_address parse_octet parse_uint
    split split_once unquote strip_prefix strip_last
parse-IsPress_example = parse-IsPress (press_datagram payload) press payload-bytes refl
