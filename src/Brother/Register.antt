-- ===== src/Brother/Register.antt =====
-- scanbus-backend-brother/src/skey/register.rs: the registration of a panel entry. A text is a list
-- of characters here, by code point: the fields it has to hold are all ASCII.
pub mod UserNames
pub mod Host
pub mod Value
pub mod Request
use mathlib.Core.Option
use scanbus_service.Common.{
  ℕ, ◌*◌, ◌/◌, ◌^◌, Bool, true, false, not, ◌||◌, Option, none, some, List, [], ◌∷◌, ◌++◌, Bytes,
  codes, beq, all, filter, take, length, is_alphanumeric, split_once, ltb, ◌==◌, if◌then◌else◌,
}
use scanbus_service.Common.Int.{ℤ}
use scanbus_service.Common.Decimal.{parse_uint, print, max_u16, max_u32}
use scanbus_service.Common.Result.{Result, ok, err, ◌>>=◌, ok_or, map_ok, to_option}
use scanbus_service.Brother.Fields.{field}
use scanbus_service.Brother.Function
use scanbus_service.Brother.Function.{Function, from_token}
use scanbus_service.Brother.Event.{Address, parse_address}
use scanbus_service.Brother.Snmp.Oid
use scanbus_service.Brother.Snmp.Oid.{Oid}
use scanbus_service.Brother.Snmp.Message
use scanbus_service.Brother.Snmp.Message.{Message}

abbrev pub registration_oid : Bytes
registration_oid = codes "1.3.6.1.4.1.2435.2.3.9.2.11.1.1.0"

abbrev pub listener_port : ℕ
listener_port = 54925

abbrev pub max_user_len : ℕ
max_user_len = 15

-- The reasons of `RegisterError::UserName`.
pub data NameFault : Type 0 where
  empty_name name_too_long not_alphanumeric : NameFault

pub data RegisterError : Type 0 where
  user_name : (name : Bytes) (reason : NameFault) → RegisterError
  lease : (seconds : ℕ) → RegisterError
  missing_field : (name : Bytes) → RegisterError
  bad_field : (name value : Bytes) → RegisterError

pub record UserName : Type 0 where
  pub text : Bytes

-- `UserName::new`
unfoldable pub new_name : Bytes → Result UserName RegisterError
new_name name =
    if length name == 0
    then err (user_name name empty_name)
    else if ltb max_user_len (length name)
    then err (user_name name name_too_long)
    else if not (all is_alphanumeric name)
    then err (user_name name not_alphanumeric)
    else ok (record { text = name })

-- `UserName::sanitised`
unfoldable pub sanitised : Bytes → Option UserName
sanitised candidate = to_option (new_name (take max_user_len (filter is_alphanumeric candidate)))

-- `duration` in nanoseconds.
pub record Registration : Type 0 where
  pub user : UserName
  pub host : Address
  pub port : ℕ
  pub function : Function
  pub duration : ℕ

abbrev pub from_secs : ℕ → ℕ
from_secs seconds = seconds * 10 ^ 9

abbrev pub as_secs : ℕ → ℕ
as_secs duration = duration / 10 ^ 9

abbrev pub default_duration : ℕ
default_duration = from_secs 360

-- `Registration::new`
abbrev pub new : UserName → Address → Function → Registration
new user host function = record {
  user = user;
  host = host;
  port = listener_port;
  function = function;
  duration = default_duration;
}

-- `Display` of `Ipv4Addr`
unfoldable pub print_address : Address → Bytes
print_address (a, b, c, d) = print a ++ b'.' ∷ (print b ++ b'.' ∷ (print c ++ b'.' ∷ print d))

-- `format!`
abbrev pub concat : List Bytes → Bytes
concat [] = []
concat (piece ∷ pieces) = piece ++ concat pieces

unfoldable pub value_text : Registration → Bytes
value_text r = concat (
    codes "TYPE=BR;BUTTON=SCAN;USER=\""
    ∷ r.user.text
    ∷ codes "\";FUNC="
    ∷ Function.as_str r.function
    ∷ codes ";HOST="
    ∷ print_address r.host
    ∷ codes ":"
    ∷ print r.port
    ∷ codes ";APPNUM="
    ∷ print (Function.appnum r.function)
    ∷ codes ";DURATION="
    ∷ print (as_secs r.duration)
    ∷ codes ";BRID=;"
    ∷ [])

-- `Registration::value`
unfoldable pub value : Registration → Result Bytes RegisterError
value r =
    if as_secs r.duration == 0 || ltb max_u32 (as_secs r.duration)
    then err (lease (as_secs r.duration))
    else ok (value_text r)

-- `expect`
abbrev pub expect : Bytes → Bytes → Result Bytes RegisterError
expect text name = ok_or (field text name) (missing_field name)

abbrev pub type_of_text : Bytes → Result (Unit {0}) RegisterError
type_of_text found = if beq found (codes "BR") then ok tt else err (bad_field (codes "TYPE") found)

-- The host and the port of a `HOST` field.
abbrev pub host_and_port : Bytes → Option (Bytes × Bytes) → Result (Bytes × ℕ) RegisterError
host_and_port found none = ok (found, listener_port)
host_and_port found (some (host, port)) =
    map_ok (λ n. (host, n)) (ok_or (parse_uint max_u16 port) (bad_field (codes "HOST") found))

-- `Registration::parse`
unfoldable pub parse : Bytes → Result Registration RegisterError
parse text = do
  found ← expect text (codes "TYPE")
  checked ← type_of_text found
  name ← expect text (codes "USER")
  user ← new_name name
  token ← expect text (codes "FUNC")
  function ← ok_or (from_token token) (bad_field (codes "FUNC") token)
  host_field ← expect text (codes "HOST")
  parts ← host_and_port host_field (split_once b':' host_field)
  host ← ok_or (parse_address parts.0) (bad_field (codes "HOST") host_field)
  duration_field ← expect text (codes "DURATION")
  seconds ← ok_or (parse_uint max_u32 duration_field) (bad_field (codes "DURATION") duration_field)
  ok (record {
    user = user;
    host = host;
    port = parts.1;
    function = function;
    duration = from_secs seconds;
  })

-- The constant, parsed: `none` is the panic of its `expect`.
unfoldable pub parsed_oid : Option Oid
parsed_oid = to_option (Oid.parse registration_oid)

-- `Registration::set_request`, whose outer `none` is that panic.
unfoldable pub set_request : Registration → Bytes → ℤ → Option (Result Message RegisterError)
set_request r community request_id =
    Option.map (λ oid. map_ok (λ text. Message.set community request_id oid text) (value r))
      parsed_oid

-- `probe_request`
unfoldable pub probe_request : Bytes → ℤ → Option Message
probe_request community request_id =
    Option.map (λ oid. Message.get community request_id oid) parsed_oid
