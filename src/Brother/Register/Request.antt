-- ===== src/Brother/Register/Request.antt =====
-- scanbus-backend-brother/src/skey/register.rs: a registration on its way to the device.
use scanbus_service.Common.{
  ℕ, ◌+◌, ◌≤◌, ◌<◌, ◌≡◌, refl, some, List, [], ◌∷◌, ◌++◌, Bytes, codes, split, length, arith,
  length-append,
}
use scanbus_service.Common.Int.{ℤ}
use scanbus_service.Common.Decimal.{print, parse_uint, length-print}
use scanbus_service.Common.Result.{ok}
use scanbus_service.Brother.Event.{Address}
use scanbus_service.Brother.Function
use scanbus_service.Brother.Function.{Function, file, image, ocr, email}
use scanbus_service.Brother.Snmp.Integer.{IsI32}
use scanbus_service.Brother.Snmp.Oid.{Oid, oid_content, encode_arcs, encode_base128, marked_groups}
use scanbus_service.Brother.Snmp.Oid as Oid
use scanbus_service.Brother.Snmp.Oid.RoundTrip.{IsValid}
use scanbus_service.Brother.Snmp.Message.{encode, decode}
use scanbus_service.Brother.Snmp.Message as Message
use scanbus_service.Brother.Snmp.Message.RoundTrip.{IsMessage, decode-encode}
use scanbus_service.Brother.Snmp.Message.Size.{encode-request}
use scanbus_service.Brother.Register.{
  RegisterError, Registration, registration_oid, as_secs, print_address, concat, value_text, value,
  parse, parsed_oid,
}
use scanbus_service.Brother.Register as Register
use scanbus_service.Brother.Register.Host.{IsAddress}
use scanbus_service.Brother.Register.Value.{IsRegistration, whole_seconds, parse-value_text}

abbrev pub oid : Oid
oid = record { arcs = 1 ∷ 3 ∷ 6 ∷ 1 ∷ 4 ∷ 1 ∷ 2435 ∷ 2 ∷ 3 ∷ 9 ∷ 2 ∷ 11 ∷ 1 ∷ 1 ∷ 0 ∷ [] }

parsed_oid-oid : parsed_oid ≡ some oid
unfolding parsed_oid Oid.parse Oid.parse_arcs Oid.new split parse_uint
parsed_oid-oid = refl

oid-IsValid : IsValid oid
unfolding Oid.new
oid-IsValid = ground arith

oid_short : length (oid_content oid) ≤ 20
unfolding oid_content encode_arcs encode_base128 marked_groups
oid_short = omega arith

length-print_address : (host : Address) → IsAddress host → length (print_address host) ≤ 15
unfolding print_address
length-print_address (a, b, c, d) (ha, hb, hc, hd) =
    let short : (n : ℕ) → n < 256 → length (print n) ≤ 3 = λ n h. length-print n 2 (omega arith) in
    omega (
      arith,
      length-append (print a) (b'.' ∷ (print b ++ b'.' ∷ (print c ++ b'.' ∷ print d))),
      length-append (print b) (b'.' ∷ (print c ++ b'.' ∷ print d)),
      length-append (print c) (b'.' ∷ print d),
      short a ha,
      short b hb,
      short c hc,
      short d hd,
    )

length-as_str :
    (f : Function) → (length (Function.as_str f) ≤ 5) × (length (print (Function.appnum f)) ≤ 1)
unfolding Function.as_str Function.appnum
length-as_str file = (omega arith, length-print 5 0 (omega arith))
length-as_str image = (omega arith, length-print 1 0 (omega arith))
length-as_str ocr = (omega arith, length-print 3 0 (omega arith))
length-as_str email = (omega arith, length-print 2 0 (omega arith))

abbrev total : List Bytes → ℕ
total [] = 0
total (piece ∷ pieces) = length piece + total pieces

length-concat : (pieces : List Bytes) → length (concat pieces) ≡ total pieces
length-concat [] = refl
length-concat (piece ∷ pieces) =
    omega (arith, length-append piece (concat pieces), length-concat pieces)

length-value_text : (r : Registration) → IsRegistration r → length (value_text r) ≤ 200
unfolding value_text
length-value_text r (name, address, port, _, seconds) =
    let (token, number) = length-as_str r.function in
    omega (
      arith,
      length-concat (
          codes "TYPE=BR;BUTTON=SCAN;USER=\""
          ∷ r.user.text
          ∷ codes "\";FUNC="
          ∷ Function.as_str r.function
          ∷ codes ";HOST="
          ∷ print_address r.host
          ∷ codes ":"
          ∷ print r.port
          ∷ codes ";APPNUM="
          ∷ print (Function.appnum r.function)
          ∷ codes ";DURATION="
          ∷ print (as_secs r.duration)
          ∷ codes ";BRID=;"
          ∷ []),
      name.1,
      token,
      number,
      length-print_address r.host address,
      length-print r.port 4 (omega arith),
      length-print (as_secs r.duration) 9 (omega arith),
    )

request-IsMessage :
    (community : Bytes) (request_id : ℤ) (text : Bytes)
    → IsI32 request_id
    → IsMessage (Message.set community request_id oid text)
request-IsMessage community request_id text h =
    (((oid-IsValid, tt), tt), h, omega arith, omega arith)

pub set_request_ok :
    (r : Registration) (community : Bytes) (request_id : ℤ)
    → IsRegistration r
    → Register.set_request r community request_id
      ≡ some (ok (Message.set community request_id oid (value_text r)))
unfolding Register.set_request value
set_request_ok r community request_id h = rw (parsed_oid-oid) (ground arith)

-- A registration with a valid name and a lease of 1 to 2^32 - 1 seconds, with a community of up to
-- 60,000 bytes and a request id of 32 bits, gives a request that encodes; the bytes decode to the
-- request, whose one value, under the registration's identifier, is a string that is read back as the
-- registration, in whole seconds.
pub set_request-parse :
    (r : Registration) (community : Bytes) (request_id : ℤ)
    → IsRegistration r
    → IsI32 request_id
    → length community ≤ 60000
    → (text : Bytes) × (bytes : Bytes) × (Register.set_request r community request_id
        ≡ some (ok (Message.set community request_id oid text)))
      × (encode (Message.set community request_id oid text) ≡ ok bytes)
      × (decode bytes ≡ ok (Message.set community request_id oid text))
      × (parse text ≡ ok (whole_seconds r))
set_request-parse r community request_id h k short =
    let text = value_text r in
    let (bytes, encoded) =
      encode-request Message.set_request community request_id oid text
        (omega (arith, short, oid_short, length-value_text r h)) in
    (
      text,
      bytes,
      set_request_ok r community request_id h,
      encoded,
      decode-encode (Message.set community request_id oid text) bytes
          (request-IsMessage community request_id text k) encoded,
      parse-value_text r h,
    )
