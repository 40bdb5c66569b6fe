-- ===== src/Brother/Snmp/Message/Size.antt =====
-- scanbus-backend-brother/src/skey/snmp.rs: which requests fit the length field.
use scanbus_service.Common.{ℕ, ◌+◌, ◌≤◌, ◌≡◌, ◌++◌, Bytes, length, arith, length-append, append-nil}
use scanbus_service.Common.Int.{ℤ}
use scanbus_service.Common.Result.{ok}
use scanbus_service.Brother.Snmp.{
  max_encoded_len, tag_integer, tag_octet_string, tag_oid, tag_sequence, tag_pdu_base, encode_len,
  tagged, push_constructed,
}
use scanbus_service.Brother.Snmp.Integer.{
  encode_integer, integer_content, encode_integer-tagged, length-content,
}
use scanbus_service.Brother.Snmp.Oid.{Oid, oid_content}
use scanbus_service.Brother.Snmp.Message.{
  PduKind, kind_code, Message, version_code, status_code, request, octet_string, varbind_content,
  encode_varbinds, pdu_head, message_head, within_limit, encode,
}

push_constructed_fits :
    (tag : ℕ) (content : Bytes)
    → length content ≤ max_encoded_len
    → push_constructed tag content ≡ ok (tagged tag content)
unfolding push_constructed
push_constructed_fits tag content h = ground arith

length-tagged_bound : (tag : ℕ) (content : Bytes) → length (tagged tag content) ≤ 4 + length content
unfolding encode_len
length-tagged_bound tag content =
    ground (arith, length-append (encode_len (length content)) content)

length-encode_integer : (value : ℤ) → length (encode_integer tag_integer value) ≤ 8
length-encode_integer value = rw (encode_integer-tagged tag_integer value) (
    omega
      (arith, length-tagged_bound tag_integer (integer_content value), (length-content value).1))

length-head : (a b c : Bytes) → length (a ++ b ++ c) ≡ length a + length b + length c
length-head a b c = omega (arith, length-append (a ++ b) c, length-append a b)

length-pdu_head : (message : Message) → length (pdu_head message.pdu) ≤ 24
length-pdu_head message =
    let pdu = message.pdu in
    omega (
      arith,
      length-head (encode_integer tag_integer pdu.request_id)
          (encode_integer tag_integer (status_code pdu.error_status))
          (encode_integer tag_integer pdu.error_index),
      length-encode_integer pdu.request_id,
      length-encode_integer (status_code pdu.error_status),
      length-encode_integer pdu.error_index,
    )

length-message_head :
    (message : Message) → length (message_head message) ≤ 12 + length message.community
length-message_head message = omega (
  arith,
  length-append (encode_integer tag_integer (version_code message.version))
      (tagged tag_octet_string message.community),
  length-encode_integer (version_code message.version),
  length-tagged_bound tag_octet_string message.community,
)

length-varbind_content :
    (oid : Oid) (value : Bytes)
    → length (varbind_content (record { oid = oid; value = octet_string value }))
      ≤ 8 + length (oid_content oid) + length value
length-varbind_content oid value = omega (
  arith,
  length-append (tagged tag_oid (oid_content oid)) (tagged tag_octet_string value),
  length-tagged_bound tag_oid (oid_content oid),
  length-tagged_bound tag_octet_string value,
)

-- A request encodes if community, object identifier and value have 65,000 bytes at most together.
pub encode-request :
    (kind : PduKind) (community : Bytes) (request_id : ℤ) (oid : Oid) (value : Bytes)
    → length community + length (oid_content oid) + length value ≤ 65000
    → (bytes : Bytes) × (encode (request kind community request_id oid value) ≡ ok bytes)
unfolding encode encode_varbinds
encode-request kind community request_id oid value h =
    let message = request kind community request_id oid value in
    let name = tagged tag_oid (oid_content oid) ++ tagged tag_octet_string value in
    let name_short : length name ≤ 8 + length (oid_content oid) + length value =
      length-varbind_content oid value in
    let varbind = tagged tag_sequence name in
    let varbind_short : length varbind ≤ 4 + length name = length-tagged_bound tag_sequence name in
    let list = tagged tag_sequence varbind in
    let list_short : length list ≤ 4 + length varbind = length-tagged_bound tag_sequence varbind in
    let content = pdu_head message.pdu ++ list in
    let content_short : length content ≤ 24 + length list =
      omega (arith, length-append (pdu_head message.pdu) list, length-pdu_head message) in
    let pdu = tagged (tag_pdu_base + kind_code kind) content in
    let pdu_short : length pdu ≤ 4 + length content =
      length-tagged_bound (tag_pdu_base + kind_code kind) content in
    let body = message_head message ++ pdu in
    let body_short : length body ≤ 12 + length community + length pdu =
      omega (arith, length-append (message_head message) pdu, length-message_head message) in
    let out = tagged tag_sequence body in
    let out_short : length out ≤ 4 + length body = length-tagged_bound tag_sequence body in
    let within : within_limit out ≡ ok out = ground arith in
    (
      out,
      rw
          (
            push_constructed_fits tag_sequence name (omega arith),
            append-nil varbind,
            push_constructed_fits tag_sequence varbind (omega arith),
            push_constructed_fits (tag_pdu_base + kind_code kind) content (omega arith),
            push_constructed_fits tag_sequence body (omega arith),
          )
          within,
    )
