-- ===== src/Brother/Snmp/Message/Framing.antt =====
-- scanbus-backend-brother/src/skey/snmp.rs: reading stays within the bytes, and comes to an end.
use scanbus_service.Common.{
  ℕ, ◌%◌, ◌≡◌, ◌≢◌, refl, ap, sym, false, ◌||◌, [], ◌∷◌, ◌++◌, Bytes, length, take, drop, ltb, ◌==◌,
  if◌then◌else◌, Bool-cases, arith, inl, inr, length-append, append_assoc, append-take-drop,
  length-take,
}
use scanbus_service.Common.Result.{ok, err, ◌>>=◌, >>=-eq-ok, Result-cases}
use scanbus_service.Brother.Snmp.{
  SnmpError, tag_sequence, Read, take_bytes, take_byte, big_endian, long_len, read_len, content_of,
  expect_any, expect_tagged,
}
use scanbus_service.Brother.Snmp.Length.{take_bytes-append}
use scanbus_service.Brother.Snmp.Message.{Message, decode_body, only, decode}

-- What is read in front of more bytes is read before them too, and they are left.
abbrev IsLocal : {A : Type 0} → (Bytes → Read A) → Type 0
IsLocal {A} read =
    (front more : Bytes) (a : A) (rest : Bytes)
    → read front ≡ ok (a, rest)
    → read (front ++ more) ≡ ok (a, rest ++ more)

>>=-IsLocal :
    {A B : Type 0} (first : Bytes → Read A) (next : A → Bytes → Read B)
    → IsLocal first
    → ((a : A) → IsLocal (next a))
    → IsLocal (λ bytes. first bytes >>= λ read. next read.0 read.1)
>>=-IsLocal first next hf hn front more b rest e =
    let (read, ef, en) = >>=-eq-ok (first front) _ e in
    rw (hf front more read.0 read.1 ef) (hn read.0 read.1 more b rest en)

take_byte-IsLocal : IsLocal take_byte
unfolding take_byte
take_byte-IsLocal [] more a rest e = cc
take_byte-IsLocal (b ∷ front) more a rest e = ground arith

pub take_bytes_ok :
    (count : ℕ) (bytes a rest : Bytes)
    → take_bytes count bytes ≡ ok (a, rest)
    → (bytes ≡ a ++ rest) × (length a ≡ count)
unfolding take_bytes
take_bytes_ok count bytes a rest e = elim (Bool-cases (ltb (length bytes) count)) [
  | inl short ↦ absurd (ground arith)
  | inr enough ↦
      let both : (take count bytes ≡ a) × (drop count bytes ≡ rest) = ground arith in
      rw (← both.0, ← both.1)
        (sym (append-take-drop count bytes), length-take count bytes (ground arith))
]

take_bytes-IsLocal : (count : ℕ) → IsLocal (take_bytes count)
unfolding take_bytes
take_bytes-IsLocal count front more a rest e =
    let (joined, exact) = take_bytes_ok count front a rest e in
    rw (joined, append_assoc a rest more, ← exact) (take_bytes-append a (rest ++ more))

long_len-IsLocal : (first : ℕ) → IsLocal (long_len first)
unfolding long_len
long_len-IsLocal first front more a rest e =
    elim (Bool-cases (first % 128 == 0 || ltb 4 (first % 128))) [
      | inl refused ↦ absurd (ground arith)
      | inr width ↦
          let e : (take_bytes (first % 128) front >>= λ digits.
          ok (big_endian 0 digits.0, digits.1))
              ≡ ok (a, rest) =
            rw (width) at e in
          let (digits, et, en) = >>=-eq-ok (take_bytes (first % 128) front) _ e in
          rw (width, take_bytes-IsLocal (first % 128) front more digits.0 digits.1 et)
            (ground arith)
    ]

after_first-IsLocal :
    (first : ℕ)
    → IsLocal (λ bytes. if ltb first 128 then ok (first, bytes) else long_len first bytes)
unfolding long_len
after_first-IsLocal first front more a rest e = elim (Bool-cases (ltb first 128)) [
  | inl short ↦ rw (short) (ground arith)
  | inr long ↦
      let e : long_len first front ≡ ok (a, rest) = rw (long) at e in
      rw (long) (long_len-IsLocal first front more a rest e)
]

read_len-IsLocal : IsLocal read_len
unfolding read_len long_len
read_len-IsLocal =
    >>=-IsLocal take_byte
      (λ first bytes. if ltb first 128 then ok (first, bytes) else long_len first bytes)
      take_byte-IsLocal after_first-IsLocal

content_of-IsLocal : (tag len : ℕ) → IsLocal (content_of tag len)
unfolding content_of
content_of-IsLocal tag len front more a rest e = elim (Bool-cases (ltb (length front) len)) [
  | inl short ↦ absurd (ground arith)
  | inr enough ↦
      let e : (take_bytes len front >>= λ content. ok ((tag, content.0), content.1))
          ≡ ok (a, rest) =
        rw (enough) at e in
      let (read, et, en) = >>=-eq-ok (take_bytes len front) _ e in
      let still : ltb (length (front ++ more)) len ≡ false =
        ground (arith, length-append front more) in
      rw (still, take_bytes-IsLocal len front more read.0 read.1 et) (ground arith)
]

expect_any-IsLocal : IsLocal expect_any
unfolding expect_any
expect_any-IsLocal =
    >>=-IsLocal take_byte (λ tag bytes. read_len bytes >>= λ len. content_of tag len.0 len.1)
      take_byte-IsLocal
      (λ tag.
        >>=-IsLocal read_len (λ len. content_of tag len) read_len-IsLocal (content_of-IsLocal tag))

expect_tagged-IsLocal : (tag : ℕ) → IsLocal (expect_tagged tag)
unfolding expect_tagged
expect_tagged-IsLocal tag front more a rest e =
    let (read, ef, en) = >>=-eq-ok (expect_any front) _ e in
    rw (expect_any-IsLocal front more read.0 read.1 ef) (ground arith)

only_ok : (read : Bytes × Bytes) (body : Bytes) → only read ≡ ok body → read ≡ (body, [])
only_ok (_, []) body h = ground arith
only_ok (_, b ∷ rest) body h = cc

left_over : (more read whole : Bytes) → only (read, more) ≡ ok whole → more ≡ []
left_over [] read whole h = refl
left_over (b ∷ more) read whole h = cc

-- A part of a decodable message that lacks the end of it is an error.
pub decode_prefix :
    (front more : Bytes) (message : Message)
    → decode (front ++ more) ≡ ok message
    → more ≢ []
    → (e : SnmpError) × (decode front ≡ err e)
unfolding decode
decode_prefix front more message h k = elim (Result-cases (decode front)) [
  | inr (e, failed) ↦ (e, failed)
  | inl (shorter, decoded) ↦
      let (body, eb, _) =
        >>=-eq-ok (expect_tagged tag_sequence front >>= only) decode_body decoded in
      let (read, er, eo) = >>=-eq-ok (expect_tagged tag_sequence front) only eb in
      let (whole, ew, _) =
        >>=-eq-ok (expect_tagged tag_sequence (front ++ more) >>= only) decode_body h in
      let nothing_left : read.1 ≡ [] = ap (λ r. r.1) (only_ok read body eo) in
      let again : only (read.0, read.1 ++ more) ≡ ok whole =
        rw (expect_tagged-IsLocal tag_sequence front more read.0 read.1 er) at ew in
      let again : only (read.0, more) ≡ ok whole = rw (nothing_left) at again in
      absurd (k (left_over more read.0 whole again))
]
