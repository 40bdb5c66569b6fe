-- ===== src/Brother/Snmp/Length.antt =====
-- scanbus-backend-brother/src/skey/snmp.rs: lengths and framed values, written and read back.
use scanbus_service.Common.{
  ℕ, ◌≤◌, ◌≡◌, refl, false, [], ◌++◌, Bytes, length, ltb, arith, length-append, take-length-append,
  drop-length-append, append_assoc,
}
use mathlib.Core.Path.{subst}
use mathlib.Core.List.{append-nil}
use scanbus_service.Common.Result.{ok}
use scanbus_service.Brother.Snmp.{
  encode_len, tagged, push_constructed, max_encoded_len, take_bytes, take_byte, big_endian,
  long_len, read_len, content_of, expect_any, expect_tagged,
}

pub read_len-encode_len :
    (len : ℕ) (rest : Bytes)
    → len ≤ max_encoded_len
    → read_len (encode_len len ++ rest) ≡ ok (len, rest)
unfolding read_len encode_len take_byte long_len take_bytes big_endian
read_len-encode_len len rest h = ground arith

pub take_bytes-append :
    (content rest : Bytes) → take_bytes (length content) (content ++ rest) ≡ ok (content, rest)
unfolding take_bytes
take_bytes-append content rest =
    let enough : ltb (length (content ++ rest)) (length content) ≡ false =
      ground (arith, length-append content rest) in
    rw (enough, take-length-append content rest, drop-length-append content rest) refl

-- A framed value that fits the length field is read back whole, and what follows it is left.
pub expect_any-tagged :
    (tag : ℕ) (content rest : Bytes)
    → length content ≤ max_encoded_len
    → expect_any (tagged tag content ++ rest) ≡ ok ((tag, content), rest)
unfolding expect_any take_byte content_of
expect_any-tagged tag content rest h =
    let enough : ltb (length (content ++ rest)) (length content) ≡ false =
      ground (arith, length-append content rest) in
    rw
      (
        append_assoc (encode_len (length content)) content rest,
        read_len-encode_len (length content) (content ++ rest) h,
        enough,
        take_bytes-append content rest,
      )
      refl

pub expect_tagged-tagged :
    (tag : ℕ) (content rest : Bytes)
    → length content ≤ max_encoded_len
    → expect_tagged tag (tagged tag content ++ rest) ≡ ok (content, rest)
unfolding expect_tagged
expect_tagged-tagged tag content rest h = rw (expect_any-tagged tag content rest h) (ground arith)

-- A framed value that nothing follows.
pub expect_any-tagged_whole :
    (tag : ℕ) (content : Bytes)
    → length content ≤ max_encoded_len
    → expect_any (tagged tag content) ≡ ok ((tag, content), [])
expect_any-tagged_whole tag content h =
    subst (λ bytes. expect_any bytes ≡ ok ((tag, content), [])) (append-nil (tagged tag content))
      (expect_any-tagged tag content [] h)

pub expect_tagged-tagged_whole :
    (tag : ℕ) (content : Bytes)
    → length content ≤ max_encoded_len
    → expect_tagged tag (tagged tag content) ≡ ok (content, [])
unfolding expect_tagged
expect_tagged-tagged_whole tag content h = rw (expect_any-tagged_whole tag content h) (ground arith)

pub push_constructed_ok :
    (tag : ℕ) (content out : Bytes)
    → push_constructed tag content ≡ ok out
    → (length content ≤ max_encoded_len) × (out ≡ tagged tag content)
unfolding push_constructed
push_constructed_ok tag content out h = ground arith
