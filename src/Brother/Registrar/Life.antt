-- ===== src/Brother/Registrar/Life.antt =====
-- scanbus-backend-brother/src/registrar.rs: what a registrar keeps alive, over its whole life.

use scanbus_service.Common.{
  ◌≡◌, ◌≢◌, ◌⊎◌, inl, inr, refl, ap, any, Bool, true, false, some, List, [], ◌∷◌, filter, arith,
  ◌≤◌,
}
use scanbus_service.Common.Int.{ℤ, pos, negsuc}
use scanbus_service.Common.Result.{Result, ok, err}
use scanbus_service.Brother.Function.{Function, variants}
use scanbus_service.Brother.Event.{Address}
use scanbus_service.Brother.Snmp.Message.{Message, PduKind, no_error, response}
use scanbus_service.Brother.Snmp.Message as Message
use scanbus_service.Brother.Register.{value_text, as_secs}
use scanbus_service.Brother.Register.UserNames.{IsName}
use scanbus_service.Brother.Register.Host.{IsAddress}
use scanbus_service.Common.Decimal.{max_u32}
use scanbus_service.Brother.Register.Request.{oid, set_request_ok}
use scanbus_service.Brother.Register.Value.{IsRegistration}
use scanbus_service.Brother.Registrar.{
  TransportError, RegistrarError, Session, Traffic, Transport, registration_of, accepted, same_id,
  after_request, requested,
}
use scanbus_service.Brother.Registrar.Calls.{
  Registrar, new, same, collected, stop, start, begun, first_round, after_first,
}
use scanbus_service.Brother.Registrar.Rounds.{Accepted, register_all_iff}

-- A call of a registrar, with what the network answers to it.
pub data Call : Type 0 where
  started : Transport → Session → Result Address TransportError → List Function → Call
  stopped : Call

abbrev pub call : Call → Registrar → Registrar
call (started transport session host given) r = (start transport session host given r).1
call stopped r = stop r

abbrev pub calls_of : List Call → Registrar → Registrar
calls_of [] r = r
calls_of (c ∷ calls) r = calls_of calls (call c r)

-- `functions` names entries exactly while the refresh task runs, each once, in the order of the panel.
pub record IsConsistent (r : Registrar) : Type 0 where
  pub alive : ((r.running ≡ true) × (r.functions ≢ [])) ⊎ ((r.running ≡ false) × (r.functions ≡ []))
  pub ordered : (p : Function → Bool) × (r.functions ≡ filter p variants)

idle :
    (traffic : Traffic)
    → IsConsistent (record { functions = []; running = false; traffic = traffic })
idle traffic = record { alive = inr (refl, refl); ordered = (λ f. false, refl) }

after_first-IsConsistent :
    (function : Function) (functions : List Function) (p : Function → Bool)
    → function ∷ functions ≡ filter p variants
    → (outcome : Result (Unit {0}) RegistrarError × Traffic)
    → IsConsistent (after_first (function ∷ functions) outcome).1
after_first-IsConsistent function functions p h (ok _, traffic) = record {
  alive = inl (refl, λ e. absurd (cc));
  ordered = (p, h);
}
after_first-IsConsistent function functions p h (err e, traffic) = idle traffic

begun-IsConsistent :
    (transport : Transport) (session : Session) (host : Result Address TransportError)
    (chosen : List Function) (p : Function → Bool) (r : Registrar)
    → chosen ≡ filter p variants
    → IsConsistent r
    → IsConsistent (begun transport session host chosen r).1
begun-IsConsistent transport session host [] p r h k = k
begun-IsConsistent transport session host (function ∷ functions) p r h k =
    after_first-IsConsistent function functions p h
      (first_round transport session host (function ∷ functions) r.traffic)

call-IsConsistent : (c : Call) (r : Registrar) → IsConsistent r → IsConsistent (call c r)
unfolding start stop collected
call-IsConsistent (started transport session host given) r h =
    begun-IsConsistent transport session host (collected given) (λ f. any (same f) given) (stop r)
      refl (idle r.traffic)
call-IsConsistent stopped r h = idle r.traffic

run-IsConsistent :
    (calls : List Call) (r : Registrar) → IsConsistent r → IsConsistent (calls_of calls r)
run-IsConsistent [] r h = h
run-IsConsistent (c ∷ calls) r h = run-IsConsistent calls (call c r) (call-IsConsistent c r h)

-- Whatever is called in whatever order, and whatever the network answers, a registrar names entries
-- exactly while its refresh task runs, each entry once and in the panel's order.
pub calls_of-IsConsistent : (calls : List Call) → IsConsistent (calls_of calls new)
calls_of-IsConsistent calls = run-IsConsistent calls new (idle new.traffic)

-- A device that says yes to every request.
abbrev pub acknowledged : Message → Message
acknowledged request = record {
  version = request.version;
  community = request.community;
  pdu = record {
    kind = PduKind.response;
    request_id = request.pdu.request_id;
    error_status = no_error;
    error_index = request.pdu.error_index;
    varbinds = request.pdu.varbinds;
  };
}

abbrev pub willing : Transport
willing request = ok (acknowledged request)

-- A name, an address and a lease that a registration can carry.
abbrev pub IsReady : Session → Address → Type 0
IsReady session host =
    IsName session.user.text
    × IsAddress host
    × (1 ≤ as_secs session.duration)
    × (as_secs session.duration ≤ max_u32)

pub same_id_refl : (id : ℤ) → same_id id id ≡ true
same_id_refl (pos n) = ground arith
same_id_refl (negsuc n) = ground arith

accepted_willing :
    (id : ℤ) (function : Function) (request : Message)
    → request.pdu.request_id ≡ id
    → accepted id (some function) (acknowledged request) ≡ ok tt
unfolding accepted
accepted_willing id function request e = rw (e, same_id_refl id) refl

willing-Accepted :
    (session : Session) (host : Address) (functions : List Function) (traffic : Traffic)
    → IsReady session host
    → (last : Traffic) × Accepted willing session host functions traffic last
willing-Accepted session host [] traffic h = (traffic, Accepted.all_done traffic)
willing-Accepted session host (function ∷ functions) traffic h =
    let r = registration_of session host function in
    let good : IsRegistration r = (h.0, h.1, omega arith, h.2, h.3) in
    let request = Message.set session.community traffic.id oid (value_text r) in
    let (last, more) =
      willing-Accepted session host functions (after_request traffic (ok request)) h in
    (
      last,
      Accepted.one_more function functions traffic last request (acknowledged request)
          (ap requested (set_request_ok r session.community traffic.id good)) refl
          (accepted_willing traffic.id function request refl) more,
    )

begun-willing :
    (session : Session) (host : Address) (chosen : List Function) (r : Registrar)
    → IsReady session host
    → r.functions ≡ []
    → ((begun willing session (ok host) chosen r).0 ≡ ok tt)
      × ((begun willing session (ok host) chosen r).1.functions ≡ chosen)
begun-willing session host [] r h k = (refl, k)
begun-willing session host (function ∷ functions) r h k =
    let (last, done) = willing-Accepted session host (function ∷ functions) r.traffic h in
    rw ((register_all_iff willing session host (function ∷ functions) r.traffic last).1 done)
      (refl, refl)

-- With a device that says yes to every request, a route to it, and a name and a lease that can be
-- registered, `start` succeeds for every choice of entries and keeps exactly these alive, whatever the
-- registrar did before.
pub start-willing :
    (session : Session) (host : Address) (given : List Function) (r : Registrar)
    → IsReady session host
    → ((start willing session (ok host) given r).0 ≡ ok tt)
      × ((start willing session (ok host) given r).1.functions ≡ collected given)
unfolding start stop
start-willing session host given r h = begun-willing session host (collected given) (stop r) h refl
