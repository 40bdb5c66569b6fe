-- ===== src/Client/Select/Order.antt =====
-- scanbus-client/src/select.rs: the order in which the objects are exported.
use mathlib.Core.List.{Permᴰ}
use mathlib.Core.List.Permᴰ
use scanbus_service.Common.{
  ◌≡◌, refl, ap, sym, ◌∙◌, Bool, false, Option, none, some, List, [], ◌∷◌, Bytes, map, filter,
  starts_with, Bool-cases, inl, inr, filter_keep, filter_drop,
}
use scanbus_service.Common.Result.{to_option}
use scanbus_service.Core.Id.{is_empty}
use scanbus_service.Client.Select.{
  any_spelling, ObjectKind, SelectError, Scanner, Objects, slash, by_id, by_id_prefix, by_name,
  scanner_stages, decide, decided_or, scanner, scanner_label, scanner_kind,
}

module _ {ℓ} {A : Type ℓ} (p : A → Bool) where
  filter_pair :
      (a b a' b' : A) (l : List A)
      → a ≡ b'
      → b ≡ a'
      → Permᴰ (filter p (a ∷ b ∷ l)) (filter p (a' ∷ b' ∷ l))
  filter_pair a b a' b' l e f = elim (Bool-cases (p a)) [
    | inl ha ↦ elim (Bool-cases (p b)) [
      | inl hb ↦
          rw
            (
              filter_keep p a (b ∷ l) ha,
              filter_keep p b l hb,
              filter_keep p a' (b' ∷ l) (ap p (sym f) ∙ hb),
              filter_keep p b' l (ap p (sym e) ∙ ha),
            )
            (Permᴰ.swap e f)
      | inr hb ↦
          rw
            (
              filter_keep p a (b ∷ l) ha,
              filter_drop p b l hb,
              filter_drop p a' (b' ∷ l) (ap p (sym f) ∙ hb),
              filter_keep p b' l (ap p (sym e) ∙ ha),
            )
            (Permᴰ.cons e (Permᴰ.refl (filter p l)))
    ]
    | inr ha ↦ elim (Bool-cases (p b)) [
      | inl hb ↦
          rw
            (
              filter_drop p a (b ∷ l) ha,
              filter_keep p b l hb,
              filter_keep p a' (b' ∷ l) (ap p (sym f) ∙ hb),
              filter_drop p b' l (ap p (sym e) ∙ ha),
            )
            (Permᴰ.cons f (Permᴰ.refl (filter p l)))
      | inr hb ↦
          rw
            (
              filter_drop p a (b ∷ l) ha,
              filter_drop p b l hb,
              filter_drop p a' (b' ∷ l) (ap p (sym f) ∙ hb),
              filter_drop p b' l (ap p (sym e) ∙ ha),
            )
            (Permᴰ.refl (filter p l))
    ]
  ]

  filter-Perm : (xs ys : List A) → Permᴰ xs ys → Permᴰ (filter p xs) (filter p ys)
  filter-Perm _ _ Permᴰ.nil = Permᴰ.nil
  filter-Perm _ _ (Permᴰ.cons {a = a} {b = b} {l₁ = xs} {l₂ = ys} e d) = elim (Bool-cases (p a)) [
    | inl h ↦
        rw (filter_keep p a xs h, filter_keep p b ys (ap p (sym e) ∙ h))
          (Permᴰ.cons e (filter-Perm xs ys d))
    | inr h ↦ rw (filter_drop p a xs h, filter_drop p b ys (ap p (sym e) ∙ h)) (filter-Perm xs ys d)
  ]
  filter-Perm _ _ (Permᴰ.swap {a = a} {b = b} {a' = a'} {b' = b'} {l = l} e f) =
      filter_pair a b a' b' l e f
  filter-Perm xs ys (Permᴰ.trans {l₂ = zs} d g) =
      Permᴰ.trans (filter-Perm xs zs d) (filter-Perm zs ys g)

module _ {ℓ} {A : Type ℓ} where
  -- What a stage says: nothing, one match, or too many.
  abbrev verdict : List A → Option (Option A)
  verdict [] = none
  verdict (a ∷ []) = some (some a)
  verdict (a ∷ b ∷ more) = some none

  cons_verdict :
      (a b : A) (xs ys : List A)
      → a ≡ b
      → Permᴰ xs ys
      → verdict xs ≡ verdict ys
      → verdict (a ∷ xs) ≡ verdict (b ∷ ys)
  cons_verdict a b [] [] e d h = ap (λ x. some (some x)) e
  cons_verdict a b [] (y ∷ []) e d h = absurd (cc)
  cons_verdict a b [] (y ∷ z ∷ ys) e d h = absurd (cc)
  cons_verdict a b (x ∷ []) [] e d h = absurd (cc)
  cons_verdict a b (x ∷ z ∷ xs) [] e d h = absurd (cc)
  cons_verdict a b (x ∷ xs) (y ∷ ys) e d h = refl

  verdict-Perm : (xs ys : List A) → Permᴰ xs ys → verdict xs ≡ verdict ys
  verdict-Perm _ _ Permᴰ.nil = refl
  verdict-Perm _ _ (Permᴰ.cons {a = a} {b = b} {l₁ = xs} {l₂ = ys} e d) =
      cons_verdict a b xs ys e d (verdict-Perm xs ys d)
  verdict-Perm _ _ (Permᴰ.swap e f) = refl
  verdict-Perm xs ys (Permᴰ.trans {l₂ = zs} d g) = verdict-Perm xs zs d ∙ verdict-Perm zs ys g

-- The first verdict there is.
abbrev first_verdict {ℓ} : {A : Type ℓ} → List (Option (Option A)) → Option A
first_verdict [] = none
first_verdict (none ∷ verdicts) = first_verdict verdicts
first_verdict (some choice ∷ verdicts) = choice

module _ {ℓ} {A : Type ℓ} (kind : ObjectKind) (selector : Bytes) (label : A → Bytes)
    (missing : SelectError) where
  decide-verdict :
      (stages : List (List A))
      → to_option (decided_or missing (decide kind selector label stages))
        ≡ first_verdict (map verdict stages)
  unfolding decide
  decide-verdict [] = refl
  decide-verdict ([] ∷ stages) = decide-verdict stages
  decide-verdict ((a ∷ []) ∷ stages) = refl
  decide-verdict ((a ∷ b ∷ more) ∷ stages) = refl

module _ (to_lowercase : Bytes → Bytes) where
  verdicts :
      (selector : Bytes) (xs ys : List Scanner)
      → Permᴰ xs ys
      → map verdict (scanner_stages to_lowercase selector xs)
        ≡ map verdict (scanner_stages to_lowercase selector ys)
  verdicts selector xs ys d =
      let same : (p : Scanner → Bool) → verdict (filter p xs) ≡ verdict (filter p ys) =
        λ p. verdict-Perm _ _ (filter-Perm p xs ys d) in
      rw
        (
          same (by_id selector),
          same (by_id_prefix to_lowercase selector),
          same (by_name to_lowercase selector),
        )
        refl

  -- A selector that is no path and is matched in every spelling (`Match::Any`) names the same scanner, or
  -- none, in whatever order the scanners are exported.
  pub scanner_reordered :
      (objects reordered : Objects) (selector : Bytes)
      → Permᴰ objects.scanners reordered.scanners
      → starts_with slash selector ≡ false
      → to_option (scanner to_lowercase objects selector any_spelling)
        ≡ to_option (scanner to_lowercase reordered selector any_spelling)
  unfolding scanner
  scanner_reordered objects reordered selector d h = elim (Bool-cases (is_empty selector)) [
    | inl blank ↦ rw (blank) refl
    | inr filled ↦
        rw (filled, h)
          (decide-verdict scanner_kind selector scanner_label _ _
            ∙ ap first_verdict (verdicts selector objects.scanners reordered.scanners d)
            ∙ sym (decide-verdict scanner_kind selector scanner_label _ _))
  ]
