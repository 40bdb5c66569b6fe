-- ===== src/Client/Select/Naming.antt =====
-- scanbus-client/src/select.rs: how an exported object can be named for certain.
use mathlib.Core.List.{Memᴰ}
use scanbus_service.Common.{
  ◌≡◌, ◌≢◌, refl, ap, sym, ◌∙◌, Bool, true, false, some, List, [], ◌∷◌, Bytes, All, beq, beq→eq,
  beq_refl, filter, find, starts_with, arith, Bool-cases, inl, inr, All-imp, find_here, find_later,
  filter_keep, filter_drop,
}
use scanbus_service.Common.Result.{ok}
use scanbus_service.Core.Id.{is_empty}
use scanbus_service.Core.Id.Charset.{IsValid, IsPathChar}
use scanbus_service.Core.Path as ObjectPath
use scanbus_service.Client.Select.{
  any_spelling, exact_id, Scanner, Objects, scanner_path, slash, decide, scanner,
}

-- No two of the elements have the same key.
abbrev pub Distinct {ℓ} : {A : Type ℓ} → (A → Bytes) → List A → Type ℓ
Distinct key [] = Unit
Distinct key (x ∷ xs) = All (λ y. key y ≢ key x) xs × Distinct key xs

beq_other : (xs ys : Bytes) → xs ≢ ys → beq xs ys ≡ false
beq_other xs ys h = elim (Bool-cases (beq xs ys)) [
  | inl same ↦ absurd (h (beq→eq xs ys same))
  | inr other ↦ other
]

module _ {ℓ} {A : Type ℓ} (key : A → Bytes) where
  abbrev by_key : Bytes → A → Bool
  by_key wanted x = beq (key x) wanted

  apart :
      (a : A) (wanted : Bytes) (xs : List A)
      → Memᴰ a xs
      → All (λ y. key y ≢ wanted) xs
      → key a ≢ wanted
  apart a wanted [] m _ = elim m [ ]
  apart a wanted (x ∷ xs) (Memᴰ.head e) (hx, h) = λ k. hx (ap key (sym e) ∙ k)
  apart a wanted (x ∷ xs) (Memᴰ.tail m) (hx, h) = apart a wanted xs m h

  filter_none :
      (wanted : Bytes) (xs : List A) → All (λ y. key y ≢ wanted) xs → filter (by_key wanted) xs ≡ []
  filter_none wanted [] h = refl
  filter_none wanted (x ∷ xs) (hx, h) =
      filter_drop (by_key wanted) x xs (beq_other (key x) wanted hx) ∙ filter_none wanted xs h

  -- Among distinct keys, the searches for the key of an element find that element and no other.
  pub keyed :
      (a : A) (xs : List A)
      → Memᴰ a xs
      → Distinct key xs
      → (find (by_key (key a)) xs ≡ some a) × (filter (by_key (key a)) xs ≡ a ∷ [])
  keyed a [] m _ = elim m [ ]
  keyed a (x ∷ xs) (Memᴰ.head e) (hx, h) =
      let same : beq (key x) (key a) ≡ true = rw (e) (beq_refl (key x)) in
      let none_left : filter (by_key (key a)) xs ≡ [] = filter_none (key a) xs (rw (e) hx) in
      (
        find_here (by_key (key a)) x xs same ∙ ap (λ y. some y) (sym e),
        filter_keep (by_key (key a)) x xs same
            ∙ ap (λ ys. x ∷ ys) none_left
            ∙ ap (λ y. y ∷ []) (sym e),
      )
  keyed a (x ∷ xs) (Memᴰ.tail m) (hx, h) =
      let other : beq (key x) (key a) ≡ false =
        beq_other (key x) (key a) (λ e. apart a (key x) xs m hx (sym e)) in
      let (found, only) = keyed a xs m h in
      (
        find_later (by_key (key a)) x xs other ∙ found,
        filter_drop (by_key (key a)) x xs other ∙ only,
      )

scanner_path-injective : (s t : Scanner) → scanner_path s ≡ scanner_path t → s.id.value ≡ t.id.value
unfolding ObjectPath.scanner
scanner_path-injective s t h = cc

paths-Distinct :
    (scanners : List Scanner) → Distinct (λ s. s.id.value) scanners → Distinct scanner_path scanners
paths-Distinct [] h = tt
paths-Distinct (s ∷ scanners) (hs, h) = (
  All-imp (λ t. t.id.value ≢ s.id.value) (λ t. scanner_path t ≢ scanner_path s)
      (λ t other e. other (scanner_path-injective t s e)) scanners hs,
  paths-Distinct scanners h,
)

id_shape :
    (value : Bytes)
    → value ≢ []
    → All IsPathChar value
    → (is_empty value ≡ false) × (starts_with slash value ≡ false)
unfolding starts_with
id_shape [] h k = absurd (h refl)
id_shape (c ∷ value) h (kc, k) = ground (arith, kc)

path_shape :
    (s : Scanner)
    → (is_empty (scanner_path s) ≡ false) × (starts_with slash (scanner_path s) ≡ true)
unfolding starts_with ObjectPath.scanner
path_shape s = (refl, refl)

module _ (to_lowercase : Bytes → Bytes) where
  -- A scanner with a legal id, among scanners with different ids, is what its object path and its
  -- full id name, whatever the other scanners are called.
  pub scanner_named :
      (objects : Objects) (s : Scanner)
      → Distinct (λ x. x.id.value) objects.scanners
      → IsValid s.id
      → Memᴰ s objects.scanners
      → (scanner to_lowercase objects s.id.value exact_id ≡ ok s)
        × (scanner to_lowercase objects s.id.value any_spelling ≡ ok s)
        × (scanner to_lowercase objects (scanner_path s) any_spelling ≡ ok s)
  unfolding scanner decide
  scanner_named objects s h v m =
      let (by_full_id, only) = keyed (λ x. x.id.value) s objects.scanners m h in
      let (by_full_path, _) =
        keyed scanner_path s objects.scanners m (paths-Distinct objects.scanners h) in
      let (filled, no_slash) = id_shape s.id.value v.nonempty v.charset in
      let (path_filled, path_slash) = path_shape s in
      (
        rw (filled, by_full_id) refl,
        rw (filled, no_slash, only) refl,
        rw (path_filled, path_slash, by_full_path) refl,
      )
