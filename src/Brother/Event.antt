-- ===== src/Brother/Event.antt =====
-- scanbus-backend-brother/src/skey/event.rs: what a datagram means.
pub mod Press
pub mod Datagram
use mathlib.Core.Option
use scanbus_service.Common.{
  ℕ, ◌≡◌, Bool, true, false, not, ◌&&◌, ◌||◌, Option, none, some, List, [], ◌∷◌, Bytes, codes, beq,
  ◌==◌, leb, length, all, is_digit, split, if◌then◌else◌,
}
use scanbus_service.Common.Decimal.{parse_uint, max_u8}
use scanbus_service.Common.Optional.{or_else}
use scanbus_service.Common.Result.{Result, ok, err, ◌>>=◌, ok_or, map_ok}
use scanbus_service.Brother.Fields.{field}
use scanbus_service.Brother.Frame
use scanbus_service.Brother.Frame.{EventError, Frame, missing_field, bad_field, unknown_frame}
use scanbus_service.Brother.Function
use scanbus_service.Brother.Function.{Function, from_token}

-- `Ipv4Addr`
abbrev pub Address : Type 0
Address = ℕ × ℕ × ℕ × ℕ

-- One part of `str::parse::<Ipv4Addr>`: up to three digits, no needless leading zero, at most 255.
unfoldable pub parse_octet : Bytes → Option ℕ
parse_octet [] = none
parse_octet (c ∷ s) =
    if all is_digit (c ∷ s) && leb (length s) 2 && (not (c == b'0') || length s == 0)
    then parse_uint max_u8 (c ∷ s)
    else none

abbrev pub four : Option ℕ → Option ℕ → Option ℕ → Option ℕ → Option Address
four (some a) (some b) (some c) (some d) = some (a, b, c, d)
four a b c d = none

abbrev pub octets : List Bytes → Option Address
octets (a ∷ b ∷ c ∷ d ∷ []) = four (parse_octet a) (parse_octet b) (parse_octet c) (parse_octet d)
octets parts = none

unfoldable pub parse_address : Bytes → Option Address
parse_address s = octets (split b'.' s)

pub record KeyPress : Type 0 where
  pub user : Bytes
  pub function : Function
  pub client : Address
  pub host : Option Bytes
  pub appnum : Option ℕ
  pub device : Option Bytes

-- `expect`
unfoldable pub expect : Bytes → Bytes → Result Bytes EventError
expect payload name = ok_or (field payload name) (missing_field name)

abbrev pub appnum_value : Option Bytes → Result (Option ℕ) EventError
appnum_value none = ok none
appnum_value (some value) =
    map_ok (λ n. some n) (ok_or (parse_uint max_u8 value) (bad_field (codes "APPNUM") value))

abbrev pub type_value : Bytes → Result (Unit {0}) EventError
type_value type_name =
    if beq type_name (codes "BR") then ok tt else err (bad_field (codes "TYPE") type_name)

-- `KeyPress::parse`
unfoldable pub parse_press : Bytes → Result KeyPress EventError
parse_press payload = do
  type_name ← expect payload (codes "TYPE")
  checked ← type_value type_name
  token ← expect payload (codes "FUNC")
  function ← ok_or (from_token token) (bad_field (codes "FUNC") token)
  address ← expect payload (codes "CLIENT")
  client ← ok_or (parse_address address) (bad_field (codes "CLIENT") address)
  appnum ← appnum_value (field payload (codes "APPNUM"))
  user ← expect payload (codes "USER")
  ok (record {
    user = user;
    function = function;
    client = client;
    host = field payload (codes "HOST");
    appnum = appnum;
    device =
        or_else (or_else (field payload (codes "DEVICE")) (field payload (codes "NODENAME")))
          (field payload (codes "IP"));
  })

-- `KeyPress::appnum_agrees`
abbrev pub appnum_agrees : KeyPress → Option Bool
appnum_agrees press = Option.map (λ n. n == Function.appnum press.function) press.appnum

pub data InternalCommand : Type 0 where
  add_device delete_device terminate list_devices refresh : InternalCommand

-- `InternalCommand::from_code`
unfoldable pub from_code : ℕ → Option InternalCommand
from_code code =
    if code == 0x80
    then some add_device
    else if code == 0x81
    then some delete_device
    else if code == 0x82
    then some terminate
    else if code == 0x83
    then some list_devices
    else if code == 0x84
    then some refresh
    else none

pub data Event : Type 0 where
  key_press : KeyPress → Event
  internal : InternalCommand → Event

unfoldable pub event_of : Frame → Result Event EventError
event_of frame =
    if frame.id == 1 && frame.code == 1
    then map_ok (λ press. key_press press) (parse_press frame.payload)
    else if frame.id == 0x80
    then map_ok (λ command. internal command)
        (ok_or (from_code frame.code) (unknown_frame frame.id frame.code))
    else err (unknown_frame frame.id frame.code)

-- `Event::parse`
unfoldable pub parse : Bytes → Result Event EventError
parse datagram = Frame.parse datagram >>= event_of
