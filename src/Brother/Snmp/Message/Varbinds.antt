-- ===== src/Brother/Snmp/Message/Varbinds.antt =====
-- scanbus-backend-brother/src/skey/snmp.rs: the varbinds of a message, written and read back.
use scanbus_service.Common.{
  ℕ, zero, suc, ◌<◌, ◌≤◌, ◌≡◌, refl, ap, sym, ◌∙◌, List, [], ◌∷◌, ◌++◌, Bytes, length, arith, All,
  length-append,
}
use scanbus_service.Common.Result.{ok, >>=-eq-ok, ok-injective}
use scanbus_service.Brother.Snmp.{
  max_encoded_len, tag_integer, tag_octet_string, tag_null, tag_oid, tag_sequence, tagged,
  encode_len, push_constructed,
}
use scanbus_service.Brother.Snmp.Length.{
  expect_tagged-tagged, expect_any-tagged_whole, push_constructed_ok,
}
use scanbus_service.Brother.Snmp.Integer.{
  integer_content, IsI32, encode_integer-tagged, decode_integer-content,
}
use scanbus_service.Brother.Snmp.Oid.{oid_content}
use scanbus_service.Brother.Snmp.Oid.RoundTrip.{decode-oid_content}
use scanbus_service.Brother.Snmp.Oid.RoundTrip as RoundTrip
use scanbus_service.Brother.Snmp.Message.{
  Value, octet_string, integer, null, encode_value, VarBind, varbind_content, encode_varbinds,
  decode_value, decode_varbind, decode_varbinds,
}

abbrev pub IsValue : Value → Type 0
IsValue (octet_string bytes) = Unit
IsValue (integer value) = IsI32 value
IsValue null = Unit

abbrev pub IsVarBind : VarBind → Type 0
IsVarBind varbind = RoundTrip.IsValid varbind.oid × IsValue varbind.value

-- The tag and the content of a value.
abbrev value_tag : Value → ℕ
value_tag (octet_string bytes) = tag_octet_string
value_tag (integer value) = tag_integer
value_tag null = tag_null

abbrev value_content : Value → Bytes
value_content (octet_string bytes) = bytes
value_content (integer value) = integer_content value
value_content null = []

encode_value-tagged :
    (value : Value) → encode_value value ≡ tagged (value_tag value) (value_content value)
encode_value-tagged (octet_string bytes) = refl
encode_value-tagged (integer value) = encode_integer-tagged tag_integer value
encode_value-tagged null = unfold encode_len in refl

decode_value-content :
    (value : Value)
    → IsValue value
    → decode_value (value_tag value) (value_content value) ≡ ok value
unfolding decode_value
decode_value-content (octet_string bytes) h = refl
decode_value-content (integer value) h = rw (decode_integer-content value h) refl
decode_value-content null h = refl

pub length-tagged : (tag : ℕ) (content : Bytes) → length content < length (tagged tag content)
length-tagged tag content = ground (arith, length-append (encode_len (length content)) content)

-- Both parts of what fits the length field fit it.
pub both_fit :
    (first : Bytes) (tag : ℕ) (content : Bytes)
    → length (first ++ tagged tag content) ≤ max_encoded_len
    → (length first ≤ max_encoded_len) × (length content ≤ max_encoded_len)
both_fit first tag content h =
    ground (arith, length-append first (tagged tag content), length-tagged tag content)

parts_fit :
    (first_tag tag : ℕ) (first content : Bytes)
    → length (tagged first_tag first ++ tagged tag content) ≤ max_encoded_len
    → (length first ≤ max_encoded_len) × (length content ≤ max_encoded_len)
parts_fit first_tag tag first content h =
    let (first_fits, content_fits) = both_fit (tagged first_tag first) tag content h in
    (ground (arith, length-tagged first_tag first), content_fits)

decode_varbind-content :
    (varbind : VarBind)
    → IsVarBind varbind
    → length (varbind_content varbind) ≤ max_encoded_len
    → decode_varbind (varbind_content varbind) ≡ ok varbind
unfolding decode_varbind
decode_varbind-content varbind (h, k) fit =
    let (name_fits, value_fits) =
      parts_fit tag_oid (value_tag varbind.value) (oid_content varbind.oid)
        (value_content varbind.value) (rw (← encode_value-tagged varbind.value) fit) in
    rw
      (
        expect_tagged-tagged tag_oid (oid_content varbind.oid) (encode_value varbind.value)
            name_fits,
        decode-oid_content varbind.oid h,
        encode_value-tagged varbind.value,
        expect_any-tagged_whole (value_tag varbind.value) (value_content varbind.value) value_fits,
        decode_value-content varbind.value k,
      )
      refl

pub decode_varbinds-encode_varbinds :
    (fuel : ℕ) (varbinds : List VarBind) (list : Bytes)
    → All IsVarBind varbinds
    → encode_varbinds varbinds ≡ ok list
    → length list ≤ fuel
    → decode_varbinds fuel list ≡ ok varbinds
unfolding encode_varbinds decode_varbinds
decode_varbinds-encode_varbinds fuel [] list h e k = rw (← ok-injective e) refl
decode_varbinds-encode_varbinds zero (varbind ∷ varbinds) list h e k =
    let (first, ef, e) = >>=-eq-ok (push_constructed tag_sequence (varbind_content varbind)) _ e in
    let (_, framed) = push_constructed_ok tag_sequence (varbind_content varbind) first ef in
    let (more, em, el) = >>=-eq-ok (encode_varbinds varbinds) _ e in
    let joined : list ≡ tagged tag_sequence (varbind_content varbind) ++ more =
      sym (ok-injective el) ∙ ap (λ f. f ++ more) framed in
    absurd (ground (arith, k, ap length joined))
decode_varbinds-encode_varbinds (suc fuel) (varbind ∷ varbinds) list (hv, h) e k =
    let (first, ef, e) = >>=-eq-ok (push_constructed tag_sequence (varbind_content varbind)) _ e in
    let (fit, framed) = push_constructed_ok tag_sequence (varbind_content varbind) first ef in
    let (more, em, el) = >>=-eq-ok (encode_varbinds varbinds) _ e in
    let joined : list ≡ tagged tag_sequence (varbind_content varbind) ++ more =
      sym (ok-injective el) ∙ ap (λ f. f ++ more) framed in
    let fuel_left : length more ≤ fuel = ground (
      arith,
      k,
      ap length joined,
      length-append (encode_len (length (varbind_content varbind)) ++ varbind_content varbind) more,
    ) in
    rw
      (
        joined,
        expect_tagged-tagged tag_sequence (varbind_content varbind) more fit,
        decode_varbind-content varbind hv fit,
        decode_varbinds-encode_varbinds fuel varbinds more h em fuel_left,
      )
      refl
