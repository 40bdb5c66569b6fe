-- ===== src/Brother/Registrar/Rounds.antt =====
-- scanbus-backend-brother/src/registrar.rs: the first round, which stops at an error, and a renewal,
-- which does not.
use mathlib.Core.Path.{subst}
use scanbus_service.Common.{
  ℕ, zero, suc, ◌≡◌, ◌↔◌, refl, ap, ◌∙◌, Bool, false, some, List, [], ◌∷◌, length,
}
use scanbus_service.Common.Int.{ℤ}
use scanbus_service.Common.Result.{Result, ok, err, >>=-eq-ok, map_err}
use scanbus_service.Brother.Function.{Function}
use scanbus_service.Brother.Event.{Address}
use scanbus_service.Brother.Snmp.Message.{Message}
use scanbus_service.Brother.Registrar.{
  RegistrarError, Session, Traffic, Transport, next_id, accepted, answered, request_of,
  after_request, register, register_all, renew_all, unless_failed, failed_or, unreachable,
}

-- The id after so many requests.
abbrev pub id_after : ℕ → ℤ → ℤ
id_after zero id = id
id_after (suc n) id = id_after n (next_id id)

unless_failed_ok :
    (first : Result (Unit {0}) RegistrarError) (traffic last : Traffic)
    (rest : Result (Unit {0}) RegistrarError × Traffic)
    → unless_failed first traffic rest ≡ (ok tt, last)
    → (first ≡ ok tt) × (rest ≡ (ok tt, last))
unless_failed_ok (ok _) traffic last rest h = (refl, h)
unless_failed_ok (err e) traffic last rest h = absurd (cc)

failed_or-false :
    (first : Result (Unit {0}) RegistrarError) (later : Bool)
    → failed_or first later ≡ false
    → (first ≡ ok tt) × (later ≡ false)
failed_or-false (ok _) later h = (refl, h)
failed_or-false (err e) later h = absurd (cc)

map_err_ok {ℓ κ μ} :
    {A : Type ℓ} {E : Type κ} {F : Type μ} (f : E → F) (r : Result A E) (a : A)
    → map_err f r ≡ ok a
    → r ≡ ok a
map_err_ok f (ok b) a h = let same : b ≡ a = cc in ap (λ x. ok x) same
map_err_ok f (err e) a h = absurd (cc)

module _ (transport : Transport) (session : Session) (host : Address) where
  -- Each entry's request is sent in its turn, and the device accepts it.
  pub data Accepted : List Function → Traffic → Traffic → Type 0 where
    all_done : (traffic : Traffic) → Accepted [] traffic traffic
    one_more :
        (function : Function) (functions : List Function) (traffic last : Traffic)
        (request answer : Message)
        → request_of transport session host function traffic.id ≡ ok request
        → transport request ≡ ok answer
        → accepted traffic.id (some function) answer ≡ ok tt
        → Accepted functions (after_request traffic (ok request)) last
        → Accepted (function ∷ functions) traffic last

  register_ok :
      (function : Function) (traffic : Traffic)
      → (register transport session host function traffic).0 ≡ ok tt
      → (request : Message) × (answer : Message) × (request_of transport session host function
            traffic.id
          ≡ ok request)
        × (transport request ≡ ok answer)
        × (accepted traffic.id (some function) answer ≡ ok tt)
  unfolding register answered
  register_ok function traffic h =
      let (request, er, h) =
        >>=-eq-ok (request_of transport session host function traffic.id) _ h in
      let (answer, ea, ec) = >>=-eq-ok (map_err (λ e. unreachable e) (transport request)) _ h in
      (request, answer, er, map_err_ok (λ e. unreachable e) (transport request) answer ea, ec)

  -- What `register` leaves of the traffic.
  register_traffic :
      (function : Function) (traffic : Traffic)
      → (register transport session host function traffic).1
        ≡ after_request traffic (request_of transport session host function traffic.id)
  unfolding register
  register_traffic function traffic = refl

  -- The entry that was accepted, in front of the others.
  accepted_first :
      (function : Function) (functions : List Function) (traffic last : Traffic)
      → (register transport session host function traffic).0 ≡ ok tt
      → Accepted functions (register transport session host function traffic).1 last
      → Accepted (function ∷ functions) traffic last
  accepted_first function functions traffic last h more =
      let (request, answer, er, ea, ec) = register_ok function traffic h in
      let left : (register transport session host function traffic).1
          ≡ after_request traffic (ok request) =
        register_traffic function traffic ∙ ap (after_request traffic) er in
      one_more function functions traffic last request answer er ea ec
        (subst (λ t. Accepted functions t last) left more)

  register_all-Accepted :
      (functions : List Function) (traffic last : Traffic)
      → register_all transport session host functions traffic ≡ (ok tt, last)
      → Accepted functions traffic last
  unfolding register_all
  register_all-Accepted [] traffic last h =
      subst (λ t. Accepted [] traffic t) (ap (λ p. p.1) h) (all_done traffic)
  register_all-Accepted (function ∷ functions) traffic last h =
      let (first, rest) =
        unless_failed_ok (register transport session host function traffic).0 _ last _ h in
      accepted_first function functions traffic last first (
        register_all-Accepted functions (register transport session host function traffic).1 last
          rest)

  Accepted-register_all :
      (functions : List Function) (traffic last : Traffic)
      → Accepted functions traffic last
      → register_all transport session host functions traffic ≡ (ok tt, last)
  unfolding register_all register answered
  Accepted-register_all _ traffic _ (all_done _) = refl
  Accepted-register_all _ traffic last
        (one_more function functions _ _ request answer er ea ec more) =
      rw (er, ea, ec)
        (Accepted-register_all functions (after_request traffic (ok request)) last more)

  -- The first round succeeds exactly if the device accepts the request of every entry, each sent once,
  -- in the order of the entries, with a request id of its own.
  pub register_all_iff :
      (functions : List Function) (traffic last : Traffic)
      → (register_all transport session host functions traffic ≡ (ok tt, last))
        ↔ Accepted functions traffic last
  register_all_iff functions traffic last =
      (register_all-Accepted functions traffic last, Accepted-register_all functions traffic last)

  id_after_request :
      (traffic : Traffic) (request : Result Message RegistrarError)
      → (after_request traffic request).id ≡ next_id traffic.id
  id_after_request traffic (ok message) = refl
  id_after_request traffic (err e) = refl

  renew_all-tries :
      (functions : List Function) (traffic : Traffic)
      → (renew_all transport session host functions traffic).1.id
        ≡ id_after (length functions) traffic.id
  unfolding renew_all register
  renew_all-tries [] traffic = refl
  renew_all-tries (function ∷ functions) traffic =
      let request = request_of transport session host function traffic.id in
      renew_all-tries functions (after_request traffic request)
      ∙ ap (id_after (length functions)) (id_after_request traffic request)

  renew_all-Accepted :
      (functions : List Function) (traffic last : Traffic)
      → renew_all transport session host functions traffic ≡ (false, last)
      → Accepted functions traffic last
  unfolding renew_all
  renew_all-Accepted [] traffic last h =
      subst (λ t. Accepted [] traffic t) (ap (λ p. p.1) h) (all_done traffic)
  renew_all-Accepted (function ∷ functions) traffic last h =
      let (first, rest) =
        failed_or-false (register transport session host function traffic).0 _ (ap (λ p. p.0) h) in
      accepted_first function functions traffic last first (
        renew_all-Accepted functions (register transport session host function traffic).1 last (
          ap
            (λ b. (
              b,
              (renew_all transport session host functions
                  (register transport session host function traffic).1).1,
            ))
            rest
          ∙ ap (λ t. (false, t)) (ap (λ p. p.1) h)))

  Accepted-renew_all :
      (functions : List Function) (traffic last : Traffic)
      → Accepted functions traffic last
      → renew_all transport session host functions traffic ≡ (false, last)
  unfolding renew_all register answered
  Accepted-renew_all _ traffic _ (all_done _) = refl
  Accepted-renew_all _ traffic last (one_more function functions _ _ request answer er ea ec more) =
      rw (er, ea, ec) (Accepted-renew_all functions (after_request traffic (ok request)) last more)

  -- A renewal is free of failures exactly if a first round in its place would succeed, with the same
  -- traffic; but it tries every entry, whatever became of those before it.
  pub renew_all_iff :
      (functions : List Function) (traffic last : Traffic)
      → ((renew_all transport session host functions traffic ≡ (false, last))
          ↔ (register_all transport session host functions traffic ≡ (ok tt, last)))
        × ((renew_all transport session host functions traffic).1.id
            ≡ id_after (length functions) traffic.id)
  renew_all_iff functions traffic last = (
    (
      λ h.
          Accepted-register_all functions traffic last
            (renew_all-Accepted functions traffic last h),
      λ h.
          Accepted-renew_all functions traffic last
            (register_all-Accepted functions traffic last h),
    ),
    renew_all-tries functions traffic,
  )
