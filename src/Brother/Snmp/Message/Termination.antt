-- ===== src/Brother/Snmp/Message/Termination.antt =====
-- scanbus-backend-brother/src/skey/snmp.rs: the loop over the varbinds of a message ends.
use scanbus_service.Common.{
  ℕ, zero, suc, ◌+◌, ◌*◌, ◌%◌, ◌≤◌, ◌≢◌, Bool, true, false, List, [], ◌∷◌, Bytes, length, ltb, ◌==◌,
  arith,
}
use scanbus_service.Common.Int.{ℤ, pos, negsuc}
use scanbus_service.Common.Decimal.{max_u32}
use scanbus_service.Common.Result.{err, ◌>>=◌, ok_or}
use scanbus_service.Brother.Snmp.{
  endless, unknown_pdu, tag_sequence, tag_octet_string, tag_oid, tag_integer, tag_null, expect_any,
  expect_tagged,
}
use scanbus_service.Brother.Snmp.Integer.{decode_integer, expect_integer}
use scanbus_service.Brother.Snmp.Oid as Oid
use scanbus_service.Brother.Snmp.Message.{
  PduKind, from_tag, decode_value, decode_varbind, decode_varbinds, decode_pdu, decode_version,
  decode_body, only, decode,
}
use scanbus_service.Brother.Snmp.Message.Reading.{
  Ended, >>=-Ended, if-Ended, map_ok-Ended, expect_any-Ended, expect_tagged-Ended,
  decode_integer-Ended, expect_integer-Ended, expect_tagged_rest,
}

new-Ended : (arcs : List ℕ) → Ended (Oid.new arcs)
unfolding Oid.new
new-Ended [] = ground arith
new-Ended (a ∷ []) = ground arith
new-Ended (a ∷ b ∷ arcs) = ground arith

decode_arcs-Ended :
    (arc : ℕ) (in_progress : Bool) (bytes : Bytes) → Ended (Oid.decode_arcs arc in_progress bytes)
unfolding Oid.decode_arcs
decode_arcs-Ended arc in_progress [] = ground arith
decode_arcs-Ended arc in_progress (b ∷ bytes) =
    let next = arc * 128 + b % 128 in
    if-Ended (ltb max_u32 next) _ _ (ground arith) (
      if-Ended (ltb b 128) _ _
        (map_ok-Ended (λ arcs. next ∷ arcs) _ (decode_arcs-Ended 0 false bytes))
        (decode_arcs-Ended next true bytes))

oid-Ended : (content : Bytes) → Ended (Oid.decode content)
unfolding Oid.decode
oid-Ended [] = ground arith
oid-Ended (b ∷ content) =
    >>=-Ended (Oid.decode_arcs 0 false content) _ (decode_arcs-Ended 0 false content)
      (λ arcs _. new-Ended _)

decode_value-Ended : (tag : ℕ) (content : Bytes) → Ended (decode_value tag content)
unfolding decode_value
decode_value-Ended tag content = if-Ended (tag == tag_octet_string) _ _ (ground arith) (
    if-Ended (tag == tag_integer) _ _
      (>>=-Ended (decode_integer content) _ (decode_integer-Ended content)
        (λ value _. ground arith))
      (if-Ended (tag == tag_null) _ _ (ground arith) (ground arith)))

decode_varbind-Ended : (bytes : Bytes) → Ended (decode_varbind bytes)
unfolding decode_varbind
decode_varbind-Ended bytes =
    >>=-Ended (expect_tagged tag_oid bytes) _ (expect_tagged-Ended tag_oid bytes) (λ name _.
      >>=-Ended (Oid.decode name.0) _ (oid-Ended name.0) (λ oid _.
        >>=-Ended (expect_any name.1) _ (expect_any-Ended name.1) (λ read _.
          >>=-Ended (decode_value read.0.0 read.0.1) _ (decode_value-Ended read.0.0 read.0.1)
            (λ value _. ground arith))))

decode_varbinds-Ended :
    (fuel : ℕ) (bytes : Bytes) → length bytes ≤ fuel → Ended (decode_varbinds fuel bytes)
unfolding decode_varbinds
decode_varbinds-Ended fuel [] h = ground arith
decode_varbinds-Ended zero (b ∷ bytes) h = absurd (omega arith)
decode_varbinds-Ended (suc fuel) (b ∷ bytes) h =
    >>=-Ended (expect_tagged tag_sequence (b ∷ bytes)) _
      (expect_tagged-Ended tag_sequence (b ∷ bytes))
      (λ item e. >>=-Ended (decode_varbind item.0) _ (decode_varbind-Ended item.0) (λ varbind _.
        >>=-Ended (decode_varbinds fuel item.1) _
          (decode_varbinds-Ended fuel item.1
            (omega (arith, h, expect_tagged_rest tag_sequence (b ∷ bytes) item.0 item.1 e)))
          (λ varbinds _. ground arith)))

decode_pdu-Ended : (kind : PduKind) (bytes : Bytes) → Ended (decode_pdu kind bytes)
unfolding decode_pdu
decode_pdu-Ended kind bytes =
    >>=-Ended (expect_integer bytes) _ (expect_integer-Ended bytes) (λ request_id _.
      >>=-Ended (expect_integer request_id.1) _ (expect_integer-Ended request_id.1)
        (λ error_status _.
          >>=-Ended (expect_integer error_status.1) _ (expect_integer-Ended error_status.1)
            (λ error_index _.
              >>=-Ended (expect_tagged tag_sequence error_index.1) _
                (expect_tagged-Ended tag_sequence error_index.1)
                (λ list _.
                  >>=-Ended (decode_varbinds (length list.0) list.0) _
                    (decode_varbinds-Ended (length list.0) list.0 (omega arith))
                    (λ varbinds _. ground arith)))))

decode_version-Ended : (code : ℤ) → Ended (decode_version code)
decode_version-Ended (pos zero) = ground arith
decode_version-Ended (pos (suc n)) = ground arith
decode_version-Ended (negsuc n) = ground arith

kind-Ended : (tag : ℕ) → Ended (ok_or (from_tag tag) (unknown_pdu tag))
unfolding from_tag
kind-Ended tag = ground arith

decode_body-Ended : (body : Bytes) → Ended (decode_body body)
unfolding decode_body
decode_body-Ended body = >>=-Ended (expect_integer body) _ (expect_integer-Ended body) (λ code _.
    >>=-Ended (decode_version code.0) _ (decode_version-Ended code.0) (λ version _.
      >>=-Ended (expect_tagged tag_octet_string code.1) _
        (expect_tagged-Ended tag_octet_string code.1)
        (λ community _.
          >>=-Ended (expect_any community.1) _ (expect_any-Ended community.1) (λ pdu _.
            >>=-Ended (ok_or (from_tag pdu.0.0) (unknown_pdu pdu.0.0)) _ (kind-Ended pdu.0.0)
              (λ kind _.
                >>=-Ended (decode_pdu kind pdu.0.1) _ (decode_pdu-Ended kind pdu.0.1)
                  (λ pdu _. ground arith))))))

only-Ended : (read : Bytes × Bytes) → Ended (only read)
only-Ended (body, []) = ground arith
only-Ended (body, b ∷ rest) = ground arith

-- `decode` never runs out of the fuel it gives its loop: the length of the list is enough for any
-- bytes, so the only errors it returns are those of the program.
pub decode_ends : (bytes : Bytes) → decode bytes ≢ err endless
unfolding decode
decode_ends bytes =
    >>=-Ended (expect_tagged tag_sequence bytes >>= only) decode_body
      (>>=-Ended (expect_tagged tag_sequence bytes) only (expect_tagged-Ended tag_sequence bytes)
        (λ read _. only-Ended read))
      (λ body _. decode_body-Ended body)
