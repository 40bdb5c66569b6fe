-- ===== src/Brother/Snmp/Message/RoundTrip.antt =====
-- scanbus-backend-brother/src/skey/snmp.rs: a message that was encoded is decoded.
use scanbus_service.Common.{
  ◌+◌, ◌≤◌, ◌≡◌, refl, ap, ◌∙◌, some, ◌++◌, Bytes, length, arith, All, append_assoc,
}
use scanbus_service.Common.Result.{ok, >>=-eq-ok}
use scanbus_service.Brother.Snmp.{
  max_encoded_len, tag_integer, tag_octet_string, tag_sequence, tag_pdu_base, tagged,
  push_constructed,
}
use scanbus_service.Brother.Snmp.Length.{
  expect_tagged-tagged, expect_any-tagged_whole, expect_tagged-tagged_whole, push_constructed_ok,
}
use scanbus_service.Brother.Snmp.Integer.{encode_integer, IsI32, expect_integer-encode_integer}
use scanbus_service.Brother.Snmp.Message.{
  PduKind, get_request, get_next_request, response, set_request, kind_code, from_tag, status_code,
  from_code, Pdu, Version, v1, version_code, Message, encode_varbinds, pdu_head, message_head,
  within_limit, encode, decode_pdu, decode_version, decode_body, decode,
}
use scanbus_service.Brother.Snmp.Message.Varbinds.{
  IsVarBind, length-tagged, both_fit, decode_varbinds-encode_varbinds,
}

-- What the types of the source say of a message.
abbrev pub IsMessage : Message → Type 0
IsMessage message =
    All IsVarBind message.pdu.varbinds
    × IsI32 message.pdu.request_id
    × IsI32 (status_code message.pdu.error_status)
    × IsI32 message.pdu.error_index

-- A message as a reader sees it: `Other` with the code of a status that has a name is that status.
abbrev pub read_pdu : Pdu → Pdu
read_pdu pdu = record pdu { error_status = from_code (status_code pdu.error_status) }

abbrev pub read_back : Message → Message
read_back message = record message { pdu = read_pdu message.pdu }

decode_pdu-encode :
    (pdu : Pdu) (list : Bytes)
    → All IsVarBind pdu.varbinds
    → IsI32 pdu.request_id
    → IsI32 (status_code pdu.error_status)
    → IsI32 pdu.error_index
    → encode_varbinds pdu.varbinds ≡ ok list
    → length list ≤ max_encoded_len
    → decode_pdu pdu.kind (pdu_head pdu ++ tagged tag_sequence list) ≡ ok (read_pdu pdu)
unfolding decode_pdu
decode_pdu-encode pdu list h i1 i2 i3 e fit =
    let id = encode_integer tag_integer pdu.request_id in
    let status = encode_integer tag_integer (status_code pdu.error_status) in
    let index = encode_integer tag_integer pdu.error_index in
    let framed = tagged tag_sequence list in
    rw
      (
        append_assoc (id ++ status) index framed,
        append_assoc id status (index ++ framed),
        expect_integer-encode_integer pdu.request_id (status ++ (index ++ framed)) i1,
        expect_integer-encode_integer (status_code pdu.error_status) (index ++ framed) i2,
        expect_integer-encode_integer pdu.error_index framed i3,
        expect_tagged-tagged_whole tag_sequence list fit,
        decode_varbinds-encode_varbinds (length list) pdu.varbinds list h e (omega arith),
      )
      refl

from_tag-kind_code : (kind : PduKind) → from_tag (tag_pdu_base + kind_code kind) ≡ some kind
unfolding from_tag
from_tag-kind_code get_request = refl
from_tag-kind_code get_next_request = refl
from_tag-kind_code response = refl
from_tag-kind_code set_request = refl

within_limit_ok :
    (out bytes : Bytes)
    → within_limit out ≡ ok bytes
    → (length out ≤ max_encoded_len) × (bytes ≡ out)
within_limit_ok out bytes h = ground arith

-- What `encode` returns, part by part.
encode_ok :
    (message : Message) (bytes : Bytes)
    → encode message ≡ ok bytes
    → (list : Bytes) × (encode_varbinds message.pdu.varbinds ≡ ok list)
      × (length list ≤ max_encoded_len)
      × (bytes
          ≡ tagged tag_sequence (
              message_head message
              ++ tagged
                  (tag_pdu_base + kind_code message.pdu.kind)
                  (pdu_head message.pdu ++ tagged tag_sequence list)))
      × (length bytes ≤ max_encoded_len)
unfolding encode
encode_ok message bytes h =
    let (list, e, h) = >>=-eq-ok (encode_varbinds message.pdu.varbinds) _ h in
    let (framed, ef, h) = >>=-eq-ok (push_constructed tag_sequence list) _ h in
    let (pdu, ep, h) =
      >>=-eq-ok
        (push_constructed (tag_pdu_base + kind_code message.pdu.kind)
          (pdu_head message.pdu ++ framed))
        _ h in
    let (out, eo, h) =
      >>=-eq-ok (push_constructed tag_sequence (message_head message ++ pdu)) _ h in
    let (within, same) = within_limit_ok out bytes h in
    let (list_fits, ef) = push_constructed_ok tag_sequence list framed ef in
    let (_, ep) = push_constructed_ok _ (pdu_head message.pdu ++ framed) pdu ep in
    let (_, eo) = push_constructed_ok tag_sequence (message_head message ++ pdu) out eo in
    (
      list,
      e,
      list_fits,
      same
          ∙ eo
          ∙ ap (λ p. tagged tag_sequence (message_head message ++ p))
              (ep
                ∙ ap
                    (λ l.
                      tagged (tag_pdu_base + kind_code message.pdu.kind)
                        (pdu_head message.pdu ++ l))
                    ef),
      rw (same) within,
    )

decode_version-code : (version : Version) → decode_version (version_code version) ≡ ok version
decode_version-code v1 = refl

version-IsI32 : (version : Version) → IsI32 (version_code version)
version-IsI32 v1 = omega arith

decode_body-encode :
    (message : Message) (list : Bytes)
    → IsMessage message
    → encode_varbinds message.pdu.varbinds ≡ ok list
    → length list ≤ max_encoded_len
    → length message.community ≤ max_encoded_len
    → length (pdu_head message.pdu ++ tagged tag_sequence list) ≤ max_encoded_len
    → decode_body (
        message_head message
        ++ tagged
            (tag_pdu_base + kind_code message.pdu.kind)
            (pdu_head message.pdu ++ tagged tag_sequence list))
      ≡ ok (read_back message)
unfolding decode_body
decode_body-encode message list (h, i1, i2, i3) e list_fits community_fits pdu_fits =
    let version = encode_integer tag_integer (version_code message.version) in
    let community = tagged tag_octet_string message.community in
    let content = pdu_head message.pdu ++ tagged tag_sequence list in
    let pdu = tagged (tag_pdu_base + kind_code message.pdu.kind) content in
    rw
      (
        append_assoc version community pdu,
        expect_integer-encode_integer (version_code message.version) (community ++ pdu)
            (version-IsI32 message.version),
        decode_version-code message.version,
        expect_tagged-tagged tag_octet_string message.community pdu community_fits,
        expect_any-tagged_whole (tag_pdu_base + kind_code message.pdu.kind) content pdu_fits,
        from_tag-kind_code message.pdu.kind,
        decode_pdu-encode message.pdu list h i1 i2 i3 e list_fits,
      )
      refl

-- A message of the source's types that encodes is what its bytes decode to, but for an error status
-- `Other` with the code of a status that has a name, which is decoded as that status.
pub decode-encode :
    (message : Message) (bytes : Bytes)
    → IsMessage message
    → encode message ≡ ok bytes
    → decode bytes ≡ ok (read_back message)
unfolding decode
decode-encode message bytes h e =
    let (list, el, list_fits, same, fit) = encode_ok message bytes e in
    let content = pdu_head message.pdu ++ tagged tag_sequence list in
    let pdu = tagged (tag_pdu_base + kind_code message.pdu.kind) content in
    let body = message_head message ++ pdu in
    let body_fits : length body ≤ max_encoded_len =
      ground (arith, fit, ap length same, length-tagged tag_sequence body) in
    let (head_fits, content_fits) =
      both_fit (message_head message) (tag_pdu_base + kind_code message.pdu.kind) content
        body_fits in
    let (_, community_fits) =
      both_fit (encode_integer tag_integer (version_code message.version)) tag_octet_string
        message.community head_fits in
    rw
      (
        same,
        expect_tagged-tagged_whole tag_sequence body body_fits,
        decode_body-encode message list h el list_fits community_fits content_fits,
      )
      refl
