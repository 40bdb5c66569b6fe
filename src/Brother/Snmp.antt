-- ===== src/Brother/Snmp.antt =====
-- scanbus-backend-brother/src/skey/snmp.rs: SNMPv1 messages, written and read in BER.
pub mod Length
pub mod Integer
pub mod Oid
pub mod Message
use scanbus_service.Common.{
  ℕ, ◌+◌, ◌*◌, ◌/◌, ◌%◌, Bool, true, false, ◌||◌, List, [], ◌∷◌, ◌++◌, Bytes, length, take, drop,
  ltb, leb, ◌==◌, if◌then◌else◌,
}
use scanbus_service.Common.Int.{ℤ, pos, negsuc}
use scanbus_service.Common.Result.{Result, ok, err, ◌>>=◌}

-- Why an object identifier is refused.
pub data OidFault : Type 0 where
  too_few : ℕ → OidFault
  unpackable : (first second : ℕ) → OidFault
  empty_content : OidFault
  arc_too_wide : OidFault
  cut_arc : OidFault
  not_a_number : Bytes → OidFault

-- `endless` is no error of the program: the decoder of the list ran out of fuel.
pub data SnmpError : Type 0 where
  truncated : (needed available : ℕ) → SnmpError
  unexpected_tag : (expected found : ℕ) → SnmpError
  unknown_pdu : ℕ → SnmpError
  unsupported_length : ℕ → SnmpError
  length_overrun : (claimed available : ℕ) → SnmpError
  integer_width : ℕ → SnmpError
  unsupported_version : ℤ → SnmpError
  bad_oid : OidFault → SnmpError
  too_long : ℕ → SnmpError
  trailing_bytes : ℕ → SnmpError
  endless : SnmpError

abbrev pub max_encoded_len : ℕ
max_encoded_len = 65535

abbrev pub tag_integer : ℕ
tag_integer = 0x02

abbrev pub tag_octet_string : ℕ
tag_octet_string = 0x04

abbrev pub tag_null : ℕ
tag_null = 0x05

abbrev pub tag_oid : ℕ
tag_oid = 0x06

abbrev pub tag_sequence : ℕ
tag_sequence = 0x30

abbrev pub tag_pdu_base : ℕ
tag_pdu_base = 0xa0

-- `encode_len`
unfoldable pub encode_len : ℕ → Bytes
encode_len len =
    if leb len 0x7f
    then len ∷ []
    else if leb len 0xff
    then 0x81 ∷ len ∷ []
    else 0x82 ∷ (len / 256) % 256 ∷ len % 256 ∷ []

-- A tag, the length and the content.
abbrev pub tagged : ℕ → Bytes → Bytes
tagged tag content = tag ∷ (encode_len (length content) ++ content)

-- `push_constructed`
unfoldable pub push_constructed : ℕ → Bytes → Result Bytes SnmpError
push_constructed tag content =
    if ltb max_encoded_len (length content)
    then err (too_long (length content))
    else ok (tagged tag content)

-- A step of `Reader`: what it reads and what it leaves.
abbrev pub Read : Type 0 → Type 0
Read A = Result (A × Bytes) SnmpError

-- `Reader::take`
unfoldable pub take_bytes : ℕ → Bytes → Read Bytes
take_bytes count bytes =
    if ltb (length bytes) count
    then err (truncated count (length bytes))
    else ok (take count bytes, drop count bytes)

-- `Reader::take_byte`
unfoldable pub take_byte : Bytes → Read ℕ
take_byte [] = err (truncated 1 0)
take_byte (b ∷ bytes) = ok (b, bytes)

-- The loop over the bytes of a long length, most significant first.
unfoldable pub big_endian : ℕ → Bytes → ℕ
big_endian len [] = len
big_endian len (b ∷ bytes) = big_endian (len * 256 + b) bytes

unfoldable pub long_len : ℕ → Bytes → Read ℕ
long_len first bytes =
    let width = first % 128 in
    if width == 0 || ltb 4 width
    then err (unsupported_length first)
    else take_bytes width bytes >>= λ digits. ok (big_endian 0 digits.0, digits.1)

-- `Reader::read_len`
unfoldable pub read_len : Bytes → Read ℕ
read_len bytes =
    take_byte bytes >>= λ first. if ltb first.0 128 then ok first else long_len first.0 first.1

unfoldable pub content_of : ℕ → ℕ → Bytes → Read (ℕ × Bytes)
content_of tag len bytes =
    if ltb (length bytes) len
    then err (length_overrun len (length bytes))
    else take_bytes len bytes >>= λ content. ok ((tag, content.0), content.1)

-- `Reader::expect_any`
unfoldable pub expect_any : Bytes → Read (ℕ × Bytes)
expect_any bytes = take_byte bytes >>= λ tag. read_len tag.1 >>= λ len. content_of tag.0 len.0 len.1

-- `Reader::expect_tagged`
unfoldable pub expect_tagged : ℕ → Bytes → Read Bytes
expect_tagged expected bytes = expect_any bytes >>= λ read.
    if read.0.0 == expected then ok (read.0.1, read.1) else err (unexpected_tag expected read.0.0)
