-- ===== src/Brother/Registrar/Calls.antt =====
-- scanbus-backend-brother/src/registrar.rs: starting and stopping a registrar.
use scanbus_service.Common.{Bool, true, false, List, [], ◌∷◌, any, filter, ◌==◌}
use scanbus_service.Common.Int.{ℤ, pos}
use scanbus_service.Common.Result.{Result, ok, err}
use scanbus_service.Brother.Function
use scanbus_service.Brother.Function.{Function, variants}
use scanbus_service.Brother.Event.{Address}
use scanbus_service.Brother.Registrar.{
  TransportError, RegistrarError, unreachable, Session, Traffic, Transport, register_all,
}

-- `functions`, and whether `refresh` holds a task.
pub record Registrar : Type 0 where
  pub functions : List Function
  pub running : Bool
  pub traffic : Traffic

-- `FIRST_REQUEST_ID`
abbrev pub first_request_id : ℤ
first_request_id = pos 200

-- `Registrar::new`
abbrev pub new : Registrar
new = record {
  functions = [];
  running = false;
  traffic = record { id = first_request_id; sent = [] };
}

abbrev pub same : Function → Function → Bool
same f g = Function.button_index f == Function.button_index g

-- `collect` into a `BTreeSet`: each function once, in the order of the type.
unfoldable pub collected : List Function → List Function
collected given = filter (λ f. any (same f) given) variants

-- `Registrar::stop`
unfoldable pub stop : Registrar → Registrar
stop r = record r { functions = []; running = false }

abbrev pub first_round :
    Transport
    → Session
    → Result Address TransportError
    → List Function
    → Traffic
    → Result (Unit {0}) RegistrarError × Traffic
first_round transport session (err e) functions traffic = (err (unreachable e), traffic)
first_round transport session (ok host) functions traffic =
    register_all transport session host functions traffic

abbrev pub after_first :
    List Function
    → Result (Unit {0}) RegistrarError × Traffic
    → Result (Unit {0}) RegistrarError × Registrar
after_first functions (ok _, traffic) =
    (ok tt, record { functions = functions; running = true; traffic = traffic })
after_first functions (err e, traffic) =
    (err e, record { functions = []; running = false; traffic = traffic })

abbrev pub begun :
    Transport
    → Session
    → Result Address TransportError
    → List Function
    → Registrar
    → Result (Unit {0}) RegistrarError × Registrar
begun transport session host [] r = (ok tt, r)
begun transport session host (function ∷ functions) r =
    after_first (function ∷ functions)
      (first_round transport session host (function ∷ functions) r.traffic)

-- `Registrar::start`
unfoldable pub start :
    Transport
    → Session
    → Result Address TransportError
    → List Function
    → Registrar
    → Result (Unit {0}) RegistrarError × Registrar
start transport session host given r = begun transport session host (collected given) (stop r)
