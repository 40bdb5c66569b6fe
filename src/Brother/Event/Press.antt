-- ===== src/Brother/Event/Press.antt =====
-- scanbus-backend-brother/src/skey/event.rs: which payloads are key presses, field by field.
use mathlib.Core.Path.{subst}
use scanbus_service.Common.{
  ℕ, ◌≡◌, ◌↔◌, refl, sym, ap, ◌∙◌, Option, none, some, Bytes, codes, beq, beq→eq, arith, inl, inr,
  Option-cases,
}
use scanbus_service.Common.Decimal.{parse_uint, max_u8}
use scanbus_service.Common.Optional.{or_else}
use scanbus_service.Common.Result.{Result, ok, err, ok_or, >>=-eq-ok}
use scanbus_service.Brother.Fields.{field}
use scanbus_service.Brother.Frame.{EventError, bad_field}
use scanbus_service.Brother.Function
use scanbus_service.Brother.Function.{Function, from_token, from_token-as_str, lookup_iff}
use scanbus_service.Brother.Event.{
  KeyPress, parse_address, expect, appnum_value, type_value, parse_press,
}

-- The number that an optional field gives, if it gives a legal one.
abbrev pub IsLegalAppnum : Option Bytes → Option ℕ → Type 0
IsLegalAppnum none number = number ≡ none
IsLegalAppnum (some value) number = (n : ℕ) × (parse_uint max_u8 value ≡ some n) × (number ≡ some n)

-- What the fields of a payload have to say for it to be this key press.
pub record IsPress (payload : Bytes) (press : KeyPress) : Type 0 where
  pub brother : field payload (codes "TYPE") ≡ some (codes "BR")
  pub function : field payload (codes "FUNC") ≡ some (Function.as_str press.function)
  pub client :
      (address : Bytes) × (field payload (codes "CLIENT") ≡ some address)
      × (parse_address address ≡ some press.client)
  pub appnum : IsLegalAppnum (field payload (codes "APPNUM")) press.appnum
  pub user : field payload (codes "USER") ≡ some press.user
  pub host : press.host ≡ field payload (codes "HOST")
  pub device :
      press.device
      ≡ or_else
          (or_else (field payload (codes "DEVICE")) (field payload (codes "NODENAME")))
          (field payload (codes "IP"))

ok_or-ok {ℓ} : {A : Type ℓ} (o : Option A) (e : EventError) {a : A} → ok_or o e ≡ ok a → o ≡ some a
ok_or-ok none e h = cc
ok_or-ok (some b) e h = ground arith

ok-injective : (a b : KeyPress) → ◌≡◌ {A = Result KeyPress EventError} (ok a) (ok b) → a ≡ b
ok-injective a b h = ap (λ r. elim r [ ok press ↦ press | err e ↦ a ]) h

type_value-ok : (s : Bytes) (u : Unit {0}) → type_value s ≡ ok u → s ≡ codes "BR"
type_value-ok s u h = ground (arith, beq→eq s (codes "BR"))

appnum_value-IsLegalAppnum :
    (o : Option Bytes) (n : Option ℕ) → appnum_value o ≡ ok n → IsLegalAppnum o n
appnum_value-IsLegalAppnum none n h = ground arith
appnum_value-IsLegalAppnum (some v) n h = elim (Option-cases (parse_uint max_u8 v)) [
  | inl bad ↦ absurd (ground arith)
  | inr (m, e) ↦ (m, e, ground arith)
]

IsLegalAppnum-appnum_value :
    (o : Option Bytes) (n : Option ℕ) → IsLegalAppnum o n → appnum_value o ≡ ok n
IsLegalAppnum-appnum_value none n h = ground arith
IsLegalAppnum-appnum_value (some v) n (m, e, f) = rw (e, f) refl

parse_press-IsPress :
    (payload : Bytes) (press : KeyPress) → parse_press payload ≡ ok press → IsPress payload press
unfolding parse_press expect
parse_press-IsPress payload press h =
    let (type_name, e1, h1) = >>=-eq-ok (expect payload (codes "TYPE")) _ h in
    let (u, e2, h2) = >>=-eq-ok (type_value type_name) _ h1 in
    let (token, e3, h3) = >>=-eq-ok (expect payload (codes "FUNC")) _ h2 in
    let (f, e4, h4) = >>=-eq-ok (ok_or (from_token token) (bad_field (codes "FUNC") token)) _ h3 in
    let (address, e5, h5) = >>=-eq-ok (expect payload (codes "CLIENT")) _ h4 in
    let (client, e6, h6) =
      >>=-eq-ok (ok_or (parse_address address) (bad_field (codes "CLIENT") address)) _ h5 in
    let (number, e7, h7) = >>=-eq-ok (appnum_value (field payload (codes "APPNUM"))) _ h6 in
    let (user, e8, h8) = >>=-eq-ok (expect payload (codes "USER")) _ h7 in
    subst (IsPress payload) (ok-injective _ _ h8) (record {
      brother = ok_or-ok _ _ e1 ∙ ap (λ t. some t) (type_value-ok type_name u e2);
      function =
          ok_or-ok _ _ e3 ∙ ap (λ t. some t) (sym ((lookup_iff f token 0 0).0.0 (ok_or-ok _ _ e4)));
      client = (address, ok_or-ok _ _ e5, ok_or-ok _ _ e6);
      appnum = appnum_value-IsLegalAppnum _ number e7;
      user = ok_or-ok _ _ e8;
      host = refl;
      device = refl;
    })

IsPress-parse_press :
    (payload : Bytes) (press : KeyPress) → IsPress payload press → parse_press payload ≡ ok press
unfolding parse_press expect beq
IsPress-parse_press payload press h =
    let (address, e, f) = h.client in
    rw
      (
        h.brother,
        h.function,
        from_token-as_str press.function,
        e,
        f,
        IsLegalAppnum-appnum_value _ press.appnum h.appnum,
        h.user,
        ← h.host,
        ← h.device,
      )
      refl

-- A payload is read as a key press exactly if its fields say so: `TYPE` is `BR`, `FUNC` is a panel
-- entry, `CLIENT` an IPv4 address, `USER` is there, `APPNUM` is a byte if it is there, and host and
-- device are the first fields there are.
pub parse_press_iff :
    (payload : Bytes) (press : KeyPress) → (parse_press payload ≡ ok press) ↔ IsPress payload press
parse_press_iff payload press =
    (parse_press-IsPress payload press, IsPress-parse_press payload press)
