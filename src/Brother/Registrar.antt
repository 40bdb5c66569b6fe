-- ===== src/Brother/Registrar.antt =====
-- scanbus-backend-brother/src/registrar.rs: registering on a panel, and renewing the lease. Durations
-- are nanoseconds. What the route lookup and the device answer are arguments: the answer to a request
-- is a function of the request, and request ids differ, so it may differ from one time to the next.
pub mod Delays
pub mod PanelName
pub mod Udp
pub mod Calls
pub mod Rounds
pub mod Life
use scanbus_service.Common.{
  ℕ, zero, suc, ◌+◌, ◌-◌, ◌*◌, ◌/◌, ◌^◌, Bool, true, false, not, ◌||◌, Option, none, some, List, [],
  ◌∷◌, ◌++◌, Bytes, take, any, ltb, leb, filter, ◌==◌, if◌then◌else◌, codes, split,
}
use scanbus_service.Common.Int.{ℤ, pos, negsuc}
use scanbus_service.Common.Optional.{or_else}
use scanbus_service.Common.Result.{Result, ok, err, ◌>>=◌, map_err}
use scanbus_service.Brother.Function
use scanbus_service.Brother.Function.{Function, variants}
use scanbus_service.Brother.Event.{Address}
use scanbus_service.Brother.Snmp.{SnmpError}
use scanbus_service.Brother.Snmp.Message
use scanbus_service.Brother.Snmp.Message.{Message, PduKind, response, ErrorStatus, no_error}
use scanbus_service.Brother.Register.{
  RegisterError, UserName, Registration, listener_port, set_request, from_secs, sanitised,
}

-- `refresh_delay`
abbrev pub refresh_delay : ℕ → ℕ
refresh_delay duration = duration / 2

-- `clamp`
abbrev pub clamp : ℕ → ℕ → ℕ → ℕ
clamp low high n = if ltb n low then low else if ltb high n then high else n

-- `retry_delay`
unfoldable pub retry_delay : ℕ → ℕ
retry_delay duration = clamp (from_secs 5) (from_secs 60) (duration / 12)

-- `FALLBACK_PANEL_NAME`
abbrev pub fallback_name : UserName
fallback_name = record { text = codes "scanbus" }

abbrev pub first_part : List Bytes → Bytes
first_part [] = []
first_part (part ∷ parts) = part

abbrev pub or_fallback : Option UserName → UserName
or_fallback none = fallback_name
or_fallback (some name) = name

-- `panel_name_from`
unfoldable pub panel_name_from : Bytes → UserName
panel_name_from hostname =
    or_fallback (or_else (sanitised (first_part (split b'.' hostname))) (sanitised hostname))

pub data TransportError : Type 0 where
  timeout : ℕ → TransportError
  io : Bytes → TransportError
  encoding : SnmpError → TransportError
  malformed : SnmpError → TransportError

-- The reasons of `RegistrarError::Unexpected`.
pub data Surprise : Type 0 where
  not_a_response : PduKind → Surprise
  another_request : (found expected : ℤ) → Surprise

-- `panicked` is the panic of `set_request`.
pub data RegistrarError : Type 0 where
  registration : RegisterError → RegistrarError
  unreachable : TransportError → RegistrarError
  refused : Option Function → ErrorStatus → RegistrarError
  unexpected : Surprise → RegistrarError
  panicked : RegistrarError

-- `==` of two `i32`
abbrev pub same_id : ℤ → ℤ → Bool
same_id (pos m) (pos n) = m == n
same_id (pos m) (negsuc n) = false
same_id (negsuc m) (pos n) = false
same_id (negsuc m) (negsuc n) = m == n

abbrev pub is_response : PduKind → Bool
is_response PduKind.get_request = false
is_response PduKind.get_next_request = false
is_response PduKind.response = true
is_response PduKind.set_request = false

-- `ErrorStatus::is_ok`
abbrev pub is_ok : ErrorStatus → Bool
is_ok ErrorStatus.no_error = true
is_ok ErrorStatus.too_big = false
is_ok ErrorStatus.no_such_name = false
is_ok ErrorStatus.bad_value = false
is_ok ErrorStatus.read_only = false
is_ok ErrorStatus.gen_err = false
is_ok (ErrorStatus.other code) = false

-- `accepted`
unfoldable pub accepted : ℤ → Option Function → Message → Result (Unit {0}) RegistrarError
accepted request_id function answer =
    if not (is_response answer.pdu.kind)
    then err (unexpected (not_a_response answer.pdu.kind))
    else if not (same_id answer.pdu.request_id request_id)
    then err (unexpected (another_request answer.pdu.request_id request_id))
    else if not (is_ok answer.pdu.error_status)
    then err (refused function answer.pdu.error_status)
    else ok tt

-- `fetch_add(1)` on an `AtomicI32`, which wraps.
abbrev pub next_id : ℤ → ℤ
next_id (pos n) = if n == 2 ^ 31 - 1 then negsuc (2 ^ 31 - 1) else pos (n + 1)
next_id (negsuc zero) = pos 0
next_id (negsuc (suc n)) = negsuc n

-- What a registrar is made with.
pub record Session : Type 0 where
  pub community : Bytes
  pub user : UserName
  pub duration : ℕ

-- `Session::register` builds it.
abbrev pub registration_of : Session → Address → Function → Registration
registration_of session host function = record {
  user = session.user;
  host = host;
  port = listener_port;
  function = function;
  duration = session.duration;
}

-- The messages that reached the transport, and the next request id.
pub record Traffic : Type 0 where
  pub id : ℤ
  pub sent : List Message

abbrev pub Transport : Type 0
Transport = Message → Result Message TransportError

-- `RECV_BUFFER`
abbrev pub recv_buffer : ℕ
recv_buffer = 2048

-- An answer to another request is passed over.
abbrev pub ours_or :
    ℤ
    → Option (Result Message TransportError)
    → Result Message SnmpError
    → Option (Result Message TransportError)
ours_or request_id later (err e) = some (err (malformed e))
ours_or request_id later (ok message) =
    if same_id message.pdu.request_id request_id then some (ok message) else later

-- The loop of `UdpSnmp::round_trip` over the datagrams that arrive in time; `none` is the timeout.
unfoldable pub await_answer : ℤ → List Bytes → Option (Result Message TransportError)
await_answer request_id [] = none
await_answer request_id (datagram ∷ datagrams) =
    let later = await_answer request_id datagrams in
    ours_or request_id later (Message.decode (take recv_buffer datagram))

abbrev pub or_timeout : ℕ → Option (Result Message TransportError) → Result Message TransportError
or_timeout after none = err (timeout after)
or_timeout after (some result) = result

-- `UdpSnmp::exchange`, with a socket that works.
unfoldable pub udp_exchange : ℕ → List Bytes → Transport
udp_exchange after datagrams request =
    map_err (λ e. encoding e) (Message.encode request) >>= λ bytes.
    or_timeout after (await_answer request.pdu.request_id datagrams)

-- `send` and `accepted`
unfoldable pub answered :
    Transport → ℤ → Option Function → Message → Result (Unit {0}) RegistrarError
answered transport request_id function request =
    map_err (λ e. unreachable e) (transport request) >>= accepted request_id function

abbrev pub requested : Option (Result Message RegisterError) → Result Message RegistrarError
requested none = err panicked
requested (some (err e)) = err (registration e)
requested (some (ok message)) = ok message

abbrev pub after_request : Traffic → Result Message RegistrarError → Traffic
after_request traffic (err e) = record traffic { id = next_id traffic.id }
after_request traffic (ok message) = record {
  id = next_id traffic.id;
  sent = traffic.sent ++ message ∷ [];
}

-- The first error ends the round.
abbrev pub unless_failed :
    Result (Unit {0}) RegistrarError
    → Traffic
    → Result (Unit {0}) RegistrarError × Traffic
    → Result (Unit {0}) RegistrarError × Traffic
unless_failed (err e) traffic rest = (err e, traffic)
unless_failed (ok _) traffic rest = rest

abbrev pub failed_or : Result (Unit {0}) RegistrarError → Bool → Bool
failed_or (err e) later = true
failed_or (ok _) later = later

module _ (transport : Transport) (session : Session) where
  -- The request of `Session::register`.
  abbrev pub request_of : Address → Function → ℤ → Result Message RegistrarError
  request_of host function request_id =
      requested (set_request (registration_of session host function) session.community request_id)

  -- `Exchange::set`, as `Session::register` calls it.
  unfoldable pub register :
      Address → Function → Traffic → Result (Unit {0}) RegistrarError × Traffic
  register host function traffic = (
    request_of host function traffic.id >>= answered transport traffic.id (some function),
    after_request traffic (request_of host function traffic.id),
  )

  -- The loop of `Registrar::first_round`: the first error ends it.
  unfoldable pub register_all :
      Address → List Function → Traffic → Result (Unit {0}) RegistrarError × Traffic
  register_all host [] traffic = (ok tt, traffic)
  register_all host (function ∷ functions) traffic =
      let first = register host function traffic in
      let rest = register_all host functions first.1 in unless_failed first.0 first.1 rest

  -- The loop of `Refresh::round`: every function is tried; the result is whether one failed.
  unfoldable pub renew_all : Address → List Function → Traffic → Bool × Traffic
  renew_all host [] traffic = (false, traffic)
  renew_all host (function ∷ functions) traffic =
      let first = register host function traffic in
      let rest = renew_all host functions first.1 in (failed_or first.0 rest.0, rest.1)

  abbrev pub renewed : Result Address TransportError → List Function → Traffic → Bool × Traffic
  renewed (err e) functions traffic = (true, traffic)
  renewed (ok host) functions traffic = renew_all host functions traffic

  -- `Refresh::round`, and the delay that `Refresh::run` sleeps after it.
  unfoldable pub round : Result Address TransportError → List Function → Traffic → ℕ × Traffic
  round host functions traffic =
      let outcome = renewed host functions traffic in
      (
        (if outcome.0 then retry_delay session.duration else refresh_delay session.duration),
        outcome.1,
      )
