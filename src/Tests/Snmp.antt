-- ===== src/Tests/Snmp.antt =====
-- A request of the Brother dialect, as the vendor's encoder writes it.
use scanbus_service.Common.{◌≡◌, ◌≢◌, refl, [], ◌∷◌, ◌++◌, Bytes, codes, arith}
use scanbus_service.Common.Int.{pos}
use scanbus_service.Common.Result.{ok, err}
use scanbus_service.Brother.Snmp.{SnmpError, endless, encode_len, push_constructed}
use scanbus_service.Brother.Snmp.Integer.{encode_integer, integer_bytes, width_of}
use scanbus_service.Brother.Snmp.Oid as Oid
use scanbus_service.Brother.Snmp.Oid.{Oid, oid_content, encode_arcs, encode_base128, marked_groups}
use scanbus_service.Brother.Snmp.Message.{Message, encode, encode_varbinds, decode}
use scanbus_service.Brother.Snmp.Message as Message
use scanbus_service.Brother.Snmp.Message.RoundTrip.{IsMessage, decode-encode}
use scanbus_service.Brother.Snmp.Message.Framing.{decode_prefix}
use scanbus_service.Brother.Snmp.Message.Termination.{decode_ends}

abbrev pub short_oid : Oid
short_oid = record { arcs = 1 ∷ 3 ∷ [] }

abbrev pub short_set : Message
short_set = Message.set (codes "x") (pos 1) short_oid []

abbrev front : Bytes
front =
    0x30 ∷ 0x1a ∷ 0x02 ∷ 0x01 ∷ 0x00 ∷ 0x04 ∷ 0x01 ∷ b'x' ∷ 0xa3 ∷ 0x12 ∷ 0x02 ∷ 0x01 ∷ 0x01 ∷ 0x02
    ∷ 0x01 ∷ 0x00 ∷ []

abbrev behind : Bytes
behind = 0x02 ∷ 0x01 ∷ 0x00 ∷ 0x30 ∷ 0x07 ∷ 0x30 ∷ 0x05 ∷ 0x06 ∷ 0x01 ∷ 0x2b ∷ 0x04 ∷ 0x00 ∷ []

abbrev pub short_bytes : Bytes
short_bytes = front ++ behind

pub short_set-IsMessage : IsMessage short_set
unfolding Oid.new
short_set-IsMessage = ground arith

pub short_set-bytes : encode short_set ≡ ok short_bytes
unfolding encode encode_varbinds push_constructed encode_len encode_integer integer_bytes width_of
    oid_content encode_arcs encode_base128 marked_groups
short_set-bytes = refl

decode-encode_example : decode short_bytes ≡ ok short_set
decode-encode_example = decode-encode short_set short_bytes short_set-IsMessage short_set-bytes

decode_prefix_example : (e : SnmpError) × (decode front ≡ err e)
decode_prefix_example =
    decode_prefix front behind short_set
      (decode-encode short_set short_bytes short_set-IsMessage short_set-bytes) (ground arith)

decode_ends_example : decode (0x30 ∷ 0x84 ∷ 0xff ∷ []) ≢ err endless
decode_ends_example = decode_ends (0x30 ∷ 0x84 ∷ 0xff ∷ [])
