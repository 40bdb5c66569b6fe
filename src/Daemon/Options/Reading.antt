-- ===== src/Daemon/Options/Reading.antt =====
-- scanbus-daemon/src/profiles/options.rs: what a processor reads from validated options.
use scanbus_service.Common.{
  ℕ, ◌≡◌, ◌≤◌, refl, Option, none, some, List, [], ◌∷◌, Bytes, beq, beq→eq, arith, Bool-cases, inl,
  inr, Option-cases,
}
use scanbus_service.Common.Result.{ok, ok_or, >>=-eq-ok}
use scanbus_service.Core.Profile.{ProfileKind}
use scanbus_service.Core.Value
use scanbus_service.Core.Value.{Value, Dict}
use scanbus_service.Daemon.Options.{
  OptionDecl, declarations, check, check_integer, check_all, validate, find_decl, as_u64,
  image_options, unknown_option, integer_value, quality_key,
}

ok_or_ok {ℓ κ} :
    {A : Type ℓ} {E : Type κ} (o : Option A) (e : E) {a : A} → ok_or o e ≡ ok a → o ≡ some a
ok_or_ok none e h = cc
ok_or_ok (some b) e h = ground arith

-- Each value of a validated map satisfies the declaration of its key.
check-get :
    (kind : ProfileKind) (declared : List OptionDecl) (options : Dict) (key : Bytes) (v : Value)
    → check_all kind declared options ≡ ok tt
    → Value.get key options ≡ some v
    → (d : OptionDecl) × (find_decl key declared ≡ some d) × (check d kind v ≡ ok tt)
unfolding check_all
check-get kind declared [] key v h g = absurd (cc)
check-get kind declared ((k, w) ∷ options) key v h g =
    let (d, e, h1) = >>=-eq-ok (ok_or (find_decl k declared) (unknown_option kind k)) _ h in
    let (u, c, rest) = >>=-eq-ok (check d kind w) _ h1 in
    let found : find_decl k declared ≡ some d = ok_or_ok (find_decl k declared) _ e in
    elim (Bool-cases (beq k key)) [
      | inl same ↦
          let spelled : k ≡ key = beq→eq k key same in
          let value : w ≡ v = ground arith in (d, rw (← spelled) found, rw (← value) c)
      | inr other ↦ check-get kind declared options key v rest (ground arith)
    ]

-- `quality` of an accepted image map is a number from 1 to 100.
pub quality_read :
    (options : Dict)
    → validate ProfileKind.image options ≡ ok tt
    → (n : ℕ) × (integer_value ProfileKind.image quality_key options ≡ ok n) × (1 ≤ n) × (n ≤ 100)
unfolding validate declarations integer_value check check_integer as_u64 beq
quality_read options h = elim (Option-cases (Value.get quality_key options)) [
  | inl absent ↦ (90, rw (absent) refl, omega arith, omega arith)
  | inr (v, e) ↦
      let (d, found, c) = check-get ProfileKind.image image_options options quality_key v h e in
      elim (Option-cases (as_u64 v)) [
        | inl unread ↦ absurd (ground arith)
        | inr (n, read) ↦ (n, ground arith, ground arith, ground arith)
      ]
]
