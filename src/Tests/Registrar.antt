-- ===== src/Tests/Registrar.antt =====
-- The registration of a host on a panel.
use scanbus_service.Common.{◌≡◌, ◌↔◌, refl, false, some, List, [], ◌∷◌, ◌++◌, Bytes, codes, arith}
use scanbus_service.Common.Int.{pos}
use scanbus_service.Common.Result.{ok, err}
use scanbus_service.Brother.Function.{file, image, ocr, email}
use scanbus_service.Brother.Event.{Address}
use scanbus_service.Brother.Snmp.{encode_len, push_constructed}
use scanbus_service.Brother.Snmp.Integer.{encode_integer, integer_bytes, width_of}
use scanbus_service.Brother.Snmp.Oid as Oid
use scanbus_service.Brother.Snmp.Oid.{oid_content, encode_arcs, encode_base128, marked_groups}
use scanbus_service.Brother.Snmp.Message.{Message, encode, encode_varbinds, decode}
use scanbus_service.Brother.Snmp.Message as Message
use scanbus_service.Brother.Snmp.Message.RoundTrip.{IsMessage, decode-encode}
use scanbus_service.Brother.Register.{UserName, Registration, from_secs, new, parse}
use scanbus_service.Brother.Register as Register
use scanbus_service.Brother.Register.Value.{IsRegistration, whole_seconds}
use scanbus_service.Brother.Register.Request.{oid, set_request-parse}
use scanbus_service.Brother.Registrar.{
  timeout, Session, Traffic, Transport, renew_all, register_all, udp_exchange,
}
use scanbus_service.Brother.Registrar.Calls.{start, collected}
use scanbus_service.Brother.Registrar.Calls as Calls
use scanbus_service.Brother.Registrar.Rounds.{id_after, renew_all_iff}
use scanbus_service.Brother.Registrar.Life.{
  Call, started, stopped, calls_of, IsConsistent, calls_of-IsConsistent, acknowledged, willing,
  IsReady, start-willing,
}
use scanbus_service.Brother.Registrar.Udp.{udp_exchange-encode}
use scanbus_service.Tests.Snmp.{short_oid, short_set, short_bytes, short_set-bytes}

abbrev desktop : UserName
desktop = record { text = codes "desktop" }

abbrev here : Address
here = (192, 168, 1, 20)

abbrev to_email : Registration
to_email = new desktop here email

to_email-IsRegistration : IsRegistration to_email
to_email-IsRegistration = ground arith

set_request-parse_example :
    (text : Bytes) × (bytes : Bytes) × (Register.set_request to_email (codes "internal") (pos 200)
      ≡ some (ok (Message.set (codes "internal") (pos 200) oid text)))
    × (encode (Message.set (codes "internal") (pos 200) oid text) ≡ ok bytes)
    × (decode bytes ≡ ok (Message.set (codes "internal") (pos 200) oid text))
    × (parse text ≡ ok (whole_seconds to_email))
set_request-parse_example =
    set_request-parse to_email (codes "internal") (pos 200) to_email-IsRegistration (omega arith)
      (omega arith)

abbrev session : Session
session = record { community = codes "internal"; user = desktop; duration = from_secs 360 }

session-IsReady : IsReady session here
session-IsReady = ground arith

start-willing_example :
    ((start willing session (ok here) (email ∷ file ∷ []) Calls.new).0 ≡ ok tt)
    × ((start willing session (ok here) (email ∷ file ∷ []) Calls.new).1.functions
        ≡ collected (email ∷ file ∷ []))
start-willing_example = start-willing session here (email ∷ file ∷ []) Calls.new session-IsReady

abbrev deaf : Transport
deaf request = err (timeout (from_secs 2))

abbrev life : List Call
life =
    started willing session (ok here) (ocr ∷ [])
    ∷ started deaf session (ok here) (file ∷ image ∷ [])
    ∷ stopped
    ∷ []

calls_of-IsConsistent_example : IsConsistent (calls_of life Calls.new)
calls_of-IsConsistent_example = calls_of-IsConsistent life

abbrev at_start : Traffic
at_start = record { id = pos 200; sent = [] }

abbrev later : Traffic
later = record { id = pos 202; sent = [] }

renew_all_iff_example :
    ((renew_all deaf session here (file ∷ image ∷ []) at_start ≡ (false, later))
      ↔ (register_all deaf session here (file ∷ image ∷ []) at_start ≡ (ok tt, later)))
    × ((renew_all deaf session here (file ∷ image ∷ []) at_start).1.id ≡ id_after 2 (pos 200))
renew_all_iff_example = renew_all_iff deaf session here (file ∷ image ∷ []) at_start later

abbrev answer_bytes : Bytes
answer_bytes =
    0x30 ∷ 0x1a ∷ 0x02 ∷ 0x01 ∷ 0x00 ∷ 0x04 ∷ 0x01 ∷ b'x' ∷ 0xa2 ∷ 0x12 ∷ 0x02 ∷ 0x01 ∷ 0x01 ∷ 0x02
    ∷ 0x01 ∷ 0x00 ∷ 0x02 ∷ 0x01 ∷ 0x00 ∷ 0x30 ∷ 0x07 ∷ 0x30 ∷ 0x05 ∷ 0x06 ∷ 0x01 ∷ 0x2b ∷ 0x04
    ∷ 0x00 ∷ []

answer-IsMessage : IsMessage (acknowledged short_set)
unfolding Oid.new
answer-IsMessage = ground arith

answer-bytes : encode (acknowledged short_set) ≡ ok answer_bytes
unfolding encode encode_varbinds push_constructed encode_len encode_integer integer_bytes width_of
    oid_content encode_arcs encode_base128 marked_groups
answer-bytes = refl

abbrev other_set : Message
other_set = Message.set (codes "x") (pos 2) short_oid []

abbrev other_bytes : Bytes
other_bytes =
    0x30 ∷ 0x1a ∷ 0x02 ∷ 0x01 ∷ 0x00 ∷ 0x04 ∷ 0x01 ∷ b'x' ∷ 0xa3 ∷ 0x12 ∷ 0x02 ∷ 0x01 ∷ 0x02 ∷ 0x02
    ∷ 0x01 ∷ 0x00 ∷ 0x02 ∷ 0x01 ∷ 0x00 ∷ 0x30 ∷ 0x07 ∷ 0x30 ∷ 0x05 ∷ 0x06 ∷ 0x01 ∷ 0x2b ∷ 0x04
    ∷ 0x00 ∷ []

other-IsMessage : IsMessage other_set
unfolding Oid.new
other-IsMessage = ground arith

other-bytes : encode other_set ≡ ok other_bytes
unfolding encode encode_varbinds push_constructed encode_len encode_integer integer_bytes width_of
    oid_content encode_arcs encode_base128 marked_groups
other-bytes = refl

udp_exchange-encode_example :
    udp_exchange (from_secs 2) ((other_bytes ∷ []) ++ answer_bytes ∷ []) short_set
    ≡ ok (acknowledged short_set)
udp_exchange-encode_example =
    udp_exchange-encode (from_secs 2) short_set (acknowledged short_set) short_bytes answer_bytes
      (other_bytes ∷ []) [] short_set-bytes answer-IsMessage answer-bytes (omega arith) refl
      ((other_set, decode-encode other_set other_bytes other-IsMessage other-bytes, refl), tt)
