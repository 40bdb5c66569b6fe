-- ===== src/Client/Select/Ladder.antt =====
-- scanbus-client/src/select.rs: what the stages of a selector decide.
use scanbus_service.Common.{◌≡◌, ◌↔◌, refl, some, List, [], ◌∷◌, Bytes, map}
use scanbus_service.Common.Result.{ok, err}
use scanbus_service.Client.Select.{ObjectKind, SelectError, ambiguous, decide}

-- The stages that come before one that matches something are empty.
pub data FirstMatch {ℓ} {A : Type ℓ} : List (List A) → List A → Type ℓ where
  here :
      (a : A) (more : List A) (stages : List (List A)) → FirstMatch ((a ∷ more) ∷ stages) (a ∷ more)
  later :
      (stages : List (List A)) (matched : List A)
      → FirstMatch stages matched
      → FirstMatch ([] ∷ stages) matched

module _ {ℓ} {A : Type ℓ} (kind : ObjectKind) (selector : Bytes) (label : A → Bytes) where
  decided :
      (stages : List (List A)) (matched : List A)
      → FirstMatch stages matched
      → decide kind selector label stages ≡ decide kind selector label (matched ∷ [])
  unfolding decide
  decided _ _ (FirstMatch.here a [] stages) = refl
  decided _ _ (FirstMatch.here a (b ∷ many) stages) = refl
  decided _ _ (FirstMatch.later stages matched m) = decided stages matched m

  decide_ok :
      (stages : List (List A)) (a : A)
      → decide kind selector label stages ≡ some (ok a)
      → FirstMatch stages (a ∷ [])
  unfolding decide
  decide_ok [] a h = absurd (cc)
  decide_ok ([] ∷ stages) a h = FirstMatch.later stages (a ∷ []) (decide_ok stages a h)
  decide_ok ((one ∷ []) ∷ stages) a h =
      let same : one ≡ a = cc in rw (same) (FirstMatch.here a [] stages)
  decide_ok ((b ∷ c ∷ many) ∷ stages) a h = absurd (cc)

  decide_err :
      (stages : List (List A)) (e : SelectError)
      → decide kind selector label stages ≡ some (err e)
      → (a : A) × (b : A) × (many : List A) × FirstMatch stages (a ∷ b ∷ many)
        × (e ≡ ambiguous kind selector (map label (a ∷ b ∷ many)))
  unfolding decide
  decide_err [] e h = absurd (cc)
  decide_err ([] ∷ stages) e h =
      let (a, b, many, m, same) = decide_err stages e h in
      (a, b, many, FirstMatch.later stages (a ∷ b ∷ many) m, same)
  decide_err ((one ∷ []) ∷ stages) e h = absurd (cc)
  decide_err ((a ∷ b ∷ many) ∷ stages) e h = (a, b, many, FirstMatch.here a (b ∷ many) stages, cc)

  -- A selector is decided exactly as its first stage that matches anything: one match is the answer,
  -- and several are an error that names all of them, whatever the later stages match.
  pub decide_iff :
      (stages : List (List A)) (a : A) (e : SelectError)
      → ((decide kind selector label stages ≡ some (ok a)) ↔ FirstMatch stages (a ∷ []))
        × ((decide kind selector label stages ≡ some (err e)) ↔ (
            (a : A) × (b : A) × (many : List A) × FirstMatch stages (a ∷ b ∷ many)
            × (e ≡ ambiguous kind selector (map label (a ∷ b ∷ many)))))
  unfolding decide
  decide_iff stages a e = (
    (decide_ok stages a, λ m. decided stages (a ∷ []) m),
    (decide_err stages e, λ (a, b, many, m, same). rw (decided stages (a ∷ b ∷ many) m, same) refl),
  )
