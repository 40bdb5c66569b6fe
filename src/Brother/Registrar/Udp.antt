-- ===== src/Brother/Registrar/Udp.antt =====
-- scanbus-backend-brother/src/registrar.rs: one request and its answer over UDP.
use scanbus_service.Common.{
  ℕ, zero, suc, ◌≤◌, ◌≡◌, refl, ap, false, some, List, [], ◌∷◌, ◌++◌, Bytes, All, take, length,
  arith,
}
use scanbus_service.Common.Int.{ℤ}
use scanbus_service.Common.Result.{ok}
use scanbus_service.Brother.Snmp.Message.{Message, encode, decode}
use scanbus_service.Brother.Snmp.Message.RoundTrip.{IsMessage, read_back, decode-encode}
use scanbus_service.Brother.Registrar.{same_id, recv_buffer, await_answer, udp_exchange}
use scanbus_service.Brother.Registrar.Life.{same_id_refl}

-- A datagram that answers another request.
abbrev pub IsStray : ℤ → Bytes → Type 0
IsStray id datagram =
    (message : Message) × (decode (take recv_buffer datagram) ≡ ok message)
    × (same_id message.pdu.request_id id ≡ false)

take_whole : (n : ℕ) (s : Bytes) → length s ≤ n → take n s ≡ s
take_whole zero [] h = refl
take_whole zero (c ∷ s) h = absurd (omega arith)
take_whole (suc n) [] h = refl
take_whole (suc n) (c ∷ s) h = ap (λ t. c ∷ t) (take_whole n s (omega arith))

await_answer_strays :
    (id : ℤ) (strays : List Bytes) (datagram : Bytes) (later : List Bytes) (answer : Message)
    → All (IsStray id) strays
    → decode (take recv_buffer datagram) ≡ ok answer
    → answer.pdu.request_id ≡ id
    → await_answer id (strays ++ datagram ∷ later) ≡ some (ok answer)
unfolding await_answer
await_answer_strays id [] datagram later answer h e k = rw (e, k, same_id_refl id) refl
await_answer_strays id (stray ∷ strays) datagram later answer ((message, ed, other), h) e k =
    rw (ed, other) (await_answer_strays id strays datagram later answer h e k)

-- A request that encodes gets its own answer: datagrams in front of it that answer other requests are
-- passed over, and those behind it are not looked at. The answer is any message of the source's types
-- with the request's id whose bytes fit the buffer; an error status `Other` with the code of a status
-- that has a name comes back as that status.
pub udp_exchange-encode :
    (after : ℕ) (request answer : Message) (sent bytes : Bytes) (strays later : List Bytes)
    → encode request ≡ ok sent
    → IsMessage answer
    → encode answer ≡ ok bytes
    → length bytes ≤ recv_buffer
    → answer.pdu.request_id ≡ request.pdu.request_id
    → All (IsStray request.pdu.request_id) strays
    → udp_exchange after (strays ++ bytes ∷ later) request ≡ ok (read_back answer)
unfolding udp_exchange
udp_exchange-encode after request answer sent bytes strays later es h ea short same others =
    let whole : decode (take recv_buffer bytes) ≡ ok (read_back answer) =
      rw (take_whole recv_buffer bytes short) (decode-encode answer bytes h ea) in
    rw
      (
        es,
        await_answer_strays request.pdu.request_id strays bytes later (read_back answer) others
            whole same,
      )
      refl
