-- ===== src/Brother/Snmp/Message.antt =====
-- scanbus-backend-brother/src/skey/snmp.rs: a whole message, written and read.
pub mod Varbinds
pub mod RoundTrip
pub mod Size
pub mod Framing
pub mod Reading
pub mod Termination
use scanbus_service.Common.{
  ℕ, zero, suc, ◌+◌, Bool, true, false, Option, none, some, List, [], ◌∷◌, ◌++◌, Bytes, length, ltb,
  ◌==◌, if◌then◌else◌, codes,
}
use scanbus_service.Common.Int.{ℤ, pos, negsuc}
use scanbus_service.Common.Result.{Result, ok, err, ◌>>=◌, ok_or}
use scanbus_service.Brother.Snmp.{
  SnmpError, unsupported_version, unknown_pdu, too_long, trailing_bytes, endless, max_encoded_len,
  tag_integer, tag_octet_string, tag_null, tag_oid, tag_sequence, tag_pdu_base, tagged,
  push_constructed, Read, expect_any, expect_tagged,
}
use scanbus_service.Brother.Snmp.Integer.{encode_integer, decode_integer, expect_integer}
use scanbus_service.Brother.Snmp.Oid.{Oid}
use scanbus_service.Brother.Snmp.Oid as Oid

pub data Value : Type 0 where
  octet_string : Bytes → Value
  integer : ℤ → Value
  null : Value

-- `Value::encode_into`
abbrev pub encode_value : Value → Bytes
encode_value (octet_string bytes) = tagged tag_octet_string bytes
encode_value (integer value) = encode_integer tag_integer value
encode_value null = tag_null ∷ 0 ∷ []

pub record VarBind : Type 0 where
  pub oid : Oid
  pub value : Value

pub data PduKind : Type 0 where
  get_request : PduKind
  get_next_request : PduKind
  response : PduKind
  set_request : PduKind

-- `PduKind::code`
abbrev pub kind_code : PduKind → ℕ
kind_code get_request = 0
kind_code get_next_request = 1
kind_code response = 2
kind_code set_request = 3

-- `PduKind::from_tag`
unfoldable pub from_tag : ℕ → Option PduKind
from_tag tag =
    if tag == 0xa0
    then some get_request
    else if tag == 0xa1
    then some get_next_request
    else if tag == 0xa2
    then some response
    else if tag == 0xa3
    then some set_request
    else none

pub data ErrorStatus : Type 0 where
  no_error : ErrorStatus
  too_big : ErrorStatus
  no_such_name : ErrorStatus
  bad_value : ErrorStatus
  read_only : ErrorStatus
  gen_err : ErrorStatus
  other : ℤ → ErrorStatus

-- `ErrorStatus::code`
abbrev pub status_code : ErrorStatus → ℤ
status_code no_error = pos 0
status_code too_big = pos 1
status_code no_such_name = pos 2
status_code bad_value = pos 3
status_code read_only = pos 4
status_code gen_err = pos 5
status_code (other code) = code

-- `ErrorStatus::from_code`
abbrev pub from_code : ℤ → ErrorStatus
from_code (negsuc n) = other (negsuc n)
from_code (pos n) =
    if n == 0
    then no_error
    else if n == 1
    then too_big
    else if n == 2
    then no_such_name
    else if n == 3
    then bad_value
    else if n == 4
    then read_only
    else if n == 5
    then gen_err
    else other (pos n)

pub record Pdu : Type 0 where
  pub kind : PduKind
  pub request_id : ℤ
  pub error_status : ErrorStatus
  pub error_index : ℤ
  pub varbinds : List VarBind

pub data Version : Type 0 where
  v1 : Version

abbrev pub version_code : Version → ℤ
version_code v1 = pos 0

pub record Message : Type 0 where
  pub version : Version
  pub community : Bytes
  pub pdu : Pdu

-- `Message::request`
abbrev pub request : PduKind → Bytes → ℤ → Oid → Bytes → Message
request kind community request_id oid value = record {
  version = v1;
  community = community;
  pdu = record {
    kind = kind;
    request_id = request_id;
    error_status = no_error;
    error_index = pos 0;
    varbinds = (record { oid = oid; value = octet_string value }) ∷ [];
  };
}

-- `Message::get`
abbrev pub get : Bytes → ℤ → Oid → Message
get community request_id oid = request get_request community request_id oid []

-- `Message::set`
abbrev pub set : Bytes → ℤ → Oid → Bytes → Message
set community request_id oid value = request set_request community request_id oid value

abbrev pub varbind_content : VarBind → Bytes
varbind_content varbind = Oid.encode varbind.oid ++ encode_value varbind.value

-- The loop of `Message::encode` over the varbinds.
unfoldable pub encode_varbinds : List VarBind → Result Bytes SnmpError
encode_varbinds [] = ok []
encode_varbinds (varbind ∷ varbinds) =
    push_constructed tag_sequence (varbind_content varbind) >>= λ first.
    encode_varbinds varbinds >>= λ more. ok (first ++ more)

abbrev pub pdu_head : Pdu → Bytes
pdu_head pdu =
    encode_integer tag_integer pdu.request_id
    ++ encode_integer tag_integer (status_code pdu.error_status)
    ++ encode_integer tag_integer pdu.error_index

abbrev pub message_head : Message → Bytes
message_head message =
    encode_integer tag_integer (version_code message.version)
    ++ tagged tag_octet_string message.community

abbrev pub within_limit : Bytes → Result Bytes SnmpError
within_limit out = if ltb max_encoded_len (length out) then err (too_long (length out)) else ok out

-- `Message::encode`
unfoldable pub encode : Message → Result Bytes SnmpError
encode message = encode_varbinds message.pdu.varbinds >>= λ varbind_list.
    push_constructed tag_sequence varbind_list >>= λ list.
    push_constructed (tag_pdu_base + kind_code message.pdu.kind) (pdu_head message.pdu ++ list)
    >>= λ pdu.
        push_constructed tag_sequence (message_head message ++ pdu) >>= λ out. within_limit out

-- The `match` on the tag of a value.
unfoldable pub decode_value : ℕ → Bytes → Result Value SnmpError
decode_value tag content =
    if tag == tag_octet_string
    then ok (octet_string content)
    else if tag == tag_integer
    then (decode_integer content >>= λ value. ok (integer value))
    else if tag == tag_null
    then ok null
    else ok (octet_string content)

-- The body of the loop over the varbinds.
unfoldable pub decode_varbind : Bytes → Result VarBind SnmpError
decode_varbind bytes = expect_tagged tag_oid bytes >>= λ name. Oid.decode name.0 >>= λ oid.
    expect_any name.1 >>= λ read.
    decode_value read.0.0 read.0.1 >>= λ value. ok (record { oid = oid; value = value })

-- The loop over the varbinds, on fuel.
unfoldable pub decode_varbinds : ℕ → Bytes → Result (List VarBind) SnmpError
decode_varbinds fuel [] = ok []
decode_varbinds zero (b ∷ bytes) = err endless
decode_varbinds (suc fuel) (b ∷ bytes) = expect_tagged tag_sequence (b ∷ bytes) >>= λ item.
    decode_varbind item.0 >>= λ varbind.
    decode_varbinds fuel item.1 >>= λ varbinds. ok (varbind ∷ varbinds)

unfoldable pub decode_pdu : PduKind → Bytes → Result Pdu SnmpError
decode_pdu kind bytes = expect_integer bytes >>= λ request_id.
    expect_integer request_id.1 >>= λ error_status. expect_integer error_status.1 >>= λ error_index.
    expect_tagged tag_sequence error_index.1 >>= λ list.
    decode_varbinds (length list.0) list.0 >>= λ varbinds. ok (record {
      kind = kind;
      request_id = request_id.0;
      error_status = from_code error_status.0;
      error_index = error_index.0;
      varbinds = varbinds;
    })

abbrev pub decode_version : ℤ → Result Version SnmpError
decode_version (pos zero) = ok v1
decode_version (pos (suc n)) = err (unsupported_version (pos (suc n)))
decode_version (negsuc n) = err (unsupported_version (negsuc n))

unfoldable pub decode_body : Bytes → Result Message SnmpError
decode_body body = expect_integer body >>= λ code. decode_version code.0 >>= λ version.
    expect_tagged tag_octet_string code.1 >>= λ community. expect_any community.1 >>= λ pdu.
    ok_or (from_tag pdu.0.0) (unknown_pdu pdu.0.0) >>= λ kind. decode_pdu kind pdu.0.1 >>= λ pdu.
    ok (record { version = version; community = community.0; pdu = pdu })

-- The test that nothing follows the message.
abbrev pub only : Bytes × Bytes → Result Bytes SnmpError
only (body, []) = ok body
only (body, b ∷ rest) = err (trailing_bytes (length (b ∷ rest)))

-- `Message::decode`
unfoldable pub decode : Bytes → Result Message SnmpError
decode bytes = expect_tagged tag_sequence bytes >>= only >>= decode_body
