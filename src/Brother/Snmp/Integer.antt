-- ===== src/Brother/Snmp/Integer.antt =====
-- scanbus-backend-brother/src/skey/snmp.rs: `i32` in the fewest bytes of two's complement.
use scanbus_service.Common.{
  ℕ, zero, suc, ◌+◌, ◌-◌, ◌*◌, ◌/◌, ◌%◌, ◌<◌, ◌≤◌, ◌≡◌, refl, [], ◌∷◌, ◌++◌, Bytes, length, ltb,
  if◌then◌else◌, arith,
}
use scanbus_service.Common.Int.{ℤ, pos, negsuc}
use scanbus_service.Common.Result.{Result, ok, err, ◌>>=◌}
use scanbus_service.Brother.Snmp.{
  SnmpError, integer_width, tagged, tag_integer, Read, expect_tagged, encode_len,
}
use scanbus_service.Brother.Snmp.Length.{expect_tagged-tagged}

-- The number of bytes that a value and its complement need.
unfoldable pub width_of : ℕ → ℕ
width_of n = if ltb n 0x80 then 1 else if ltb n 0x8000 then 2 else if ltb n 0x800000 then 3 else 4

abbrev pub magnitude : ℤ → ℕ
magnitude (pos n) = n
magnitude (negsuc n) = n

-- The lowest byte of a value, and the value without it: `value as u8` and `value >> 8`. The
-- complement of a negative value shifts as a number does.
abbrev pub low_byte : ℤ → ℕ
low_byte (pos n) = n % 256
low_byte (negsuc n) = 255 - n % 256

abbrev pub shifted : ℤ → ℤ
shifted (pos n) = pos (n / 256)
shifted (negsuc n) = negsuc (n / 256)

-- The loop over the shifts: `width` bytes, the highest first, in front of `tail`.
unfoldable pub integer_bytes : ℕ → ℤ → Bytes → Bytes
integer_bytes zero value tail = tail
integer_bytes (suc width) value tail = integer_bytes width (shifted value) (low_byte value ∷ tail)

abbrev pub integer_content : ℤ → Bytes
integer_content value = integer_bytes (width_of (magnitude value)) value []

-- `encode_integer`: the width is one byte.
unfoldable pub encode_integer : ℕ → ℤ → Bytes
encode_integer tag value = tag ∷ width_of (magnitude value) ∷ integer_content value

-- `i32::from(content[0] as i8)`
abbrev pub signed_byte : ℕ → ℤ
signed_byte b = if ltb b 128 then pos b else negsuc (255 - b)

-- `(value << 8) | byte`
abbrev pub push_byte : ℤ → ℕ → ℤ
push_byte (pos n) b = pos (n * 256 + b)
push_byte (negsuc n) b = negsuc (n * 256 + (255 - b))

unfoldable pub push_bytes : ℤ → Bytes → ℤ
push_bytes value [] = value
push_bytes value (b ∷ bytes) = push_bytes (push_byte value b) bytes

unfoldable pub decode_integer : Bytes → Result ℤ SnmpError
decode_integer [] = err (integer_width 0)
decode_integer (b ∷ bytes) =
    if ltb 4 (length (b ∷ bytes))
    then err (integer_width (length (b ∷ bytes)))
    else ok (push_bytes (signed_byte b) bytes)

-- `expect_integer`
unfoldable pub expect_integer : Bytes → Read ℤ
expect_integer bytes = expect_tagged tag_integer bytes >>= λ content.
    decode_integer content.0 >>= λ value. ok (value, content.1)

abbrev pub IsI32 : ℤ → Type 0
IsI32 value = magnitude value < 2147483648

pub decode_integer-content :
    (value : ℤ) → IsI32 value → decode_integer (integer_content value) ≡ ok value
unfolding decode_integer integer_bytes width_of push_bytes
decode_integer-content (pos n) h = ground arith
decode_integer-content (negsuc n) h = ground arith

pub length-content :
    (value : ℤ)
    → (length (integer_content value) ≡ width_of (magnitude value))
      × (length (integer_content value) ≤ 4)
unfolding integer_bytes width_of
length-content value = ground arith

pub encode_integer-tagged :
    (tag : ℕ) (value : ℤ) → encode_integer tag value ≡ tagged tag (integer_content value)
unfolding encode_integer encode_len width_of integer_bytes
encode_integer-tagged tag value = ground arith

-- An `i32` is read back from its shortest two's complement, whatever follows it.
pub expect_integer-encode_integer :
    (value : ℤ) (rest : Bytes)
    → IsI32 value
    → expect_integer (encode_integer tag_integer value ++ rest) ≡ ok (value, rest)
unfolding expect_integer
expect_integer-encode_integer value rest h =
    let (same, short) = length-content value in
    rw
      (
        encode_integer-tagged tag_integer value,
        expect_tagged-tagged tag_integer (integer_content value) rest (omega arith),
        decode_integer-content value h,
      )
      refl
