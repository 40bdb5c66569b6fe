-- ===== src/Brother/Snmp/Message/Reading.antt =====
-- scanbus-backend-brother/src/skey/snmp.rs: a read of the message shortens what is left, and the
-- fuel of the loop is no error of it.
use scanbus_service.Common.{
  ℕ, ◌%◌, ◌<◌, ◌≤◌, ◌≡◌, ◌≢◌, refl, ap, Bool, true, false, ◌||◌, [], ◌∷◌, Bytes, length, ltb, ◌==◌,
  if◌then◌else◌, arith, Bool-cases, inl, inr, length-append,
}
use scanbus_service.Common.Result.{Result, ok, err, ◌>>=◌, >>=-eq-ok, map_ok, ok-injective}
use scanbus_service.Brother.Snmp.{
  SnmpError, endless, tag_integer, take_bytes, take_byte, big_endian, long_len, read_len,
  content_of, expect_any, expect_tagged,
}
use scanbus_service.Brother.Snmp.Integer.{decode_integer, expect_integer}
use scanbus_service.Brother.Snmp.Message.Framing.{take_bytes_ok}

-- The fuel did not run out.
abbrev pub Ended : {A : Type 0} → Result A SnmpError → Type 0
Ended result = result ≢ err endless

pub >>=-Ended :
    {A B : Type 0} (first : Result A SnmpError) (rest : A → Result B SnmpError)
    → Ended first
    → ((a : A) → first ≡ ok a → Ended (rest a))
    → Ended (first >>= rest)
>>=-Ended (ok a) rest hf hr = hr a refl
>>=-Ended (err e) rest hf hr = λ h. hf (ap (λ r. elim r [ ok _ ↦ err endless | err x ↦ err x ]) h)

pub if-Ended :
    {A : Type 0} (test : Bool) (left right : Result A SnmpError)
    → Ended left
    → Ended right
    → Ended (if test then left else right)
if-Ended true left right hl hr = hl
if-Ended false left right hl hr = hr

pub map_ok-Ended :
    {A B : Type 0} (f : A → B) (result : Result A SnmpError)
    → Ended result
    → Ended (map_ok f result)
map_ok-Ended f (ok a) h = ground arith
map_ok-Ended f (err e) h = λ k. h (ap (λ r. elim r [ ok _ ↦ err endless | err x ↦ err x ]) k)

take_bytes-Ended : (count : ℕ) (bytes : Bytes) → Ended (take_bytes count bytes)
unfolding take_bytes
take_bytes-Ended count bytes = ground arith

take_byte-Ended : (bytes : Bytes) → Ended (take_byte bytes)
unfolding take_byte
take_byte-Ended [] = ground arith
take_byte-Ended (b ∷ bytes) = ground arith

long_len-Ended : (first : ℕ) (bytes : Bytes) → Ended (long_len first bytes)
unfolding long_len
long_len-Ended first bytes = if-Ended (first % 128 == 0 || ltb 4 (first % 128)) _ _ (ground arith) (
    >>=-Ended (take_bytes (first % 128) bytes) _ (take_bytes-Ended (first % 128) bytes)
      (λ digits _. ground arith))

content_of-Ended : (tag len : ℕ) (bytes : Bytes) → Ended (content_of tag len bytes)
unfolding content_of
content_of-Ended tag len bytes =
    if-Ended (ltb (length bytes) len) _ _ (ground arith)
      (>>=-Ended (take_bytes len bytes) _ (take_bytes-Ended len bytes) (λ content _. ground arith))

read_len-Ended : (bytes : Bytes) → Ended (read_len bytes)
unfolding read_len
read_len-Ended bytes =
    >>=-Ended (take_byte bytes) _ (take_byte-Ended bytes)
      (λ first _. if-Ended (ltb first.0 128) _ _ (ground arith) (long_len-Ended first.0 first.1))

pub expect_any-Ended : (bytes : Bytes) → Ended (expect_any bytes)
unfolding expect_any
expect_any-Ended bytes = >>=-Ended (take_byte bytes) _ (take_byte-Ended bytes) (λ tag _.
    >>=-Ended (read_len tag.1) _ (read_len-Ended tag.1)
      (λ len _. content_of-Ended tag.0 len.0 len.1))

pub expect_tagged-Ended : (tag : ℕ) (bytes : Bytes) → Ended (expect_tagged tag bytes)
unfolding expect_tagged
expect_tagged-Ended tag bytes =
    >>=-Ended (expect_any bytes) _ (expect_any-Ended bytes)
      (λ read _. if-Ended (read.0.0 == tag) _ _ (ground arith) (ground arith))

pub decode_integer-Ended : (content : Bytes) → Ended (decode_integer content)
unfolding decode_integer
decode_integer-Ended [] = ground arith
decode_integer-Ended (b ∷ content) = ground arith

pub expect_integer-Ended : (bytes : Bytes) → Ended (expect_integer bytes)
unfolding expect_integer
expect_integer-Ended bytes =
    >>=-Ended (expect_tagged tag_integer bytes) _ (expect_tagged-Ended tag_integer bytes)
      (λ content _.
        >>=-Ended (decode_integer content.0) _ (decode_integer-Ended content.0)
          (λ value _. ground arith))

take_bytes_rest :
    (count : ℕ) (bytes a rest : Bytes)
    → take_bytes count bytes ≡ ok (a, rest)
    → length rest ≤ length bytes
take_bytes_rest count bytes a rest h =
    omega (arith, ap length (take_bytes_ok count bytes a rest h).0, length-append a rest)

long_len_rest :
    (first : ℕ) (bytes : Bytes) (len : ℕ) (rest : Bytes)
    → long_len first bytes ≡ ok (len, rest)
    → length rest ≤ length bytes
unfolding long_len
long_len_rest first bytes len rest h = elim (Bool-cases (first % 128 == 0 || ltb 4 (first % 128))) [
  | inl refused ↦ absurd (ground arith)
  | inr width ↦
      let h : (take_bytes (first % 128) bytes >>= λ digits. ok (big_endian 0 digits.0, digits.1))
          ≡ ok (len, rest) =
        rw (width) at h in
      let (digits, et, en) = >>=-eq-ok (take_bytes (first % 128) bytes) _ h in
      ground (
        arith,
        take_bytes_rest (first % 128) bytes digits.0 digits.1 et,
        ap (λ r. r.1) (ok-injective en),
      )
]

read_len_rest :
    (bytes : Bytes) (len : ℕ) (rest : Bytes)
    → read_len bytes ≡ ok (len, rest)
    → length rest < length bytes
unfolding read_len take_byte
read_len_rest [] len rest h = absurd (ground arith)
read_len_rest (b ∷ bytes) len rest h = elim (Bool-cases (ltb b 128)) [
  | inl short ↦ ground arith
  | inr long ↦
      let h : long_len b bytes ≡ ok (len, rest) = rw (long) at h in
      ground (arith, long_len_rest b bytes len rest h)
]

content_of_rest :
    (tag len : ℕ) (bytes : Bytes) (a : ℕ × Bytes) (rest : Bytes)
    → content_of tag len bytes ≡ ok (a, rest)
    → length rest ≤ length bytes
unfolding content_of
content_of_rest tag len bytes a rest h = elim (Bool-cases (ltb (length bytes) len)) [
  | inl short ↦ absurd (ground arith)
  | inr enough ↦
      let h : (take_bytes len bytes >>= λ content. ok ((tag, content.0), content.1))
          ≡ ok (a, rest) =
        rw (enough) at h in
      let (read, et, en) = >>=-eq-ok (take_bytes len bytes) _ h in
      ground (arith, take_bytes_rest len bytes read.0 read.1 et, ap (λ r. r.1) (ok-injective en))
]

expect_any_rest :
    (bytes : Bytes) (read : (ℕ × Bytes) × Bytes)
    → expect_any bytes ≡ ok read
    → length read.1 < length bytes
unfolding expect_any take_byte
expect_any_rest [] read h = absurd (ground arith)
expect_any_rest (b ∷ bytes) read h =
    let (len, el, ec) = >>=-eq-ok (read_len bytes) _ h in
    omega
      (arith, read_len_rest bytes len.0 len.1 el, content_of_rest b len.0 len.1 read.0 read.1 ec)

-- A framed value that was read takes at least a byte.
pub expect_tagged_rest :
    (tag : ℕ) (bytes content rest : Bytes)
    → expect_tagged tag bytes ≡ ok (content, rest)
    → length rest < length bytes
unfolding expect_tagged
expect_tagged_rest tag bytes content rest h =
    let (read, er, et) = >>=-eq-ok (expect_any bytes) _ h in
    let same : read.1 ≡ rest = ground arith in
    ground (arith, expect_any_rest bytes read er, ap length same)
