-- ===== src/Common/Maps.antt =====
-- A `BTreeMap` as its entries in the order of the keys, with the tests of that order.
pub mod Order
use mathlib.Core.Option
use mathlib.Core.Path.{◌≡◌, refl}
use mathlib.Core.Logic.{inl, inr}
use mathlib.Core.Bool.{Bool, true, false}
use mathlib.Core.Option.{Option, none, some}
use mathlib.Core.List.{List, [], ◌∷◌}
use native.Mathlib.Omega.{arith}
use scanbus_service.Common.Tests.{ltb, ◌==◌, if◌then◌else◌, Bool-cases}
use scanbus_service.Common.Text.{Bytes, beq, beq→eq, beq_refl, beq_iff}

module _ {ℓ κ} {K : Type ℓ} {V : Type κ} (same : K → K → Bool) where
  -- `map.get(key)`
  unfoldable pub lookup : K → List (K × V) → Option V
  lookup key [] = none
  lookup key ((k, v) ∷ entries) =
      let rest = lookup key entries in if same key k then some v else rest

module _ {ℓ κ} {K : Type ℓ} {V : Type κ} (same before : K → K → Bool) where
  -- `map.insert(key, value)`
  unfoldable pub insert : K → V → List (K × V) → List (K × V)
  insert key value [] = (key, value) ∷ []
  insert key value ((k, v) ∷ entries) =
      let rest = insert key value entries in
      if same key k
      then (key, value) ∷ entries
      else if before key k
      then (key, value) ∷ (k, v) ∷ entries
      else (k, v) ∷ rest

-- The order of texts, byte by byte.
abbrev pub text_before : Bytes → Bytes → Bool
text_before [] [] = false
text_before [] (d ∷ t) = true
text_before (c ∷ s) [] = false
text_before (c ∷ s) (d ∷ t) = let rest = text_before s t in if c == d then rest else ltb c d

-- `map.remove(key)`
unfoldable pub remove : {V : Type 0} → Bytes → List (Bytes × V) → List (Bytes × V)
remove key [] = []
remove key ((k, v) ∷ entries) =
    let rest = remove key entries in if beq key k then rest else (k, v) ∷ rest

module _ {K : Type 0} (same : K → K → Bool) (same_refl : (k : K) → same k k ≡ true)
    (same→eq : (k l : K) → same k l ≡ true → k ≡ l) where
  both_same : (key k l : K) → same key k ≡ true → same key l ≡ true → same k l ≡ true
  both_same key k l h g = rw (← same→eq key k h) g

-- No key stands twice among the entries.
abbrev pub IsMap : {K V : Type 0} → (K → K → Bool) → List (K × V) → Type 0
IsMap same [] = Unit
IsMap same ((k, v) ∷ entries) = (lookup same k entries ≡ none) × IsMap same entries

module _ {K V : Type 0} (same before : K → K → Bool) (same_refl : (k : K) → same k k ≡ true)
    (same→eq : (k l : K) → same k l ≡ true → k ≡ l) where
  passed_over :
      (key k l : K) (v w : V) (found : Option V)
      → same k l ≡ false
      → (if same key l then some w else (if same key k then some v else found))
        ≡ (if same key k then some v else (if same key l then some w else found))
  passed_over key k l v w found h = elim (Bool-cases (same key k)) [
    | inr other ↦ rw (other) refl
    | inl here ↦ elim (Bool-cases (same key l)) [
      | inr other ↦ rw (here, other) refl
      | inl there ↦
          let clash : same k l ≡ true = both_same same same_refl same→eq key k l here there in
          absurd (cc)
    ]
  ]

  -- An inserted key is found with its value, and every other key as before.
  pub lookup-insert :
      (key k : K) (v : V) (entries : List (K × V))
      → lookup same key (insert same before k v entries)
        ≡ (if same key k then some v else lookup same key entries)
  unfolding lookup insert
  lookup-insert key k v [] = refl
  lookup-insert key k v ((l, w) ∷ entries) = elim (Bool-cases (same k l)) [
    | inl here ↦ rw (here, same→eq k l here) (ground arith)
    | inr other ↦ elim (Bool-cases (before k l)) [
      | inl front ↦ rw (other, front) refl
      | inr back ↦
          rw (other, back, lookup-insert key k v entries)
            (passed_over key k l v w (lookup same key entries) other)
    ]
  ]

pub lookup-remove_self :
    {V : Type 0} (key : Bytes) (entries : List (Bytes × V))
    → lookup beq key (remove key entries) ≡ none
unfolding lookup remove
lookup-remove_self key [] = refl
lookup-remove_self key ((k, v) ∷ entries) = elim (Bool-cases (beq key k)) [
  | inl here ↦ rw (here) (lookup-remove_self key entries)
  | inr other ↦ rw (other, lookup-remove_self key entries, other) refl
]

-- `for value in map.values_mut()`
abbrev pub map_values : {V W : Type 0} → (V → W) → List (Bytes × V) → List (Bytes × W)
map_values f [] = []
map_values f ((k, v) ∷ entries) = (k, f v) ∷ map_values f entries

-- The laws of the maps whose keys are texts.
pub lookup-put :
    {V : Type 0} (key k : Bytes) (v : V) (entries : List (Bytes × V))
    → lookup beq key (insert beq text_before k v entries)
      ≡ (if beq key k then some v else lookup beq key entries)
lookup-put key k v entries = lookup-insert beq text_before beq_refl beq→eq key k v entries

pub lookup-put_self :
    {V : Type 0} (k : Bytes) (v : V) (entries : List (Bytes × V))
    → lookup beq k (insert beq text_before k v entries) ≡ some v
lookup-put_self k v entries = rw (lookup-put k k v entries, beq_refl k) refl

pub lookup-remove :
    {V : Type 0} (key k : Bytes) (entries : List (Bytes × V))
    → lookup beq key (remove k entries) ≡ (if beq key k then none else lookup beq key entries)
unfolding lookup remove
lookup-remove key k [] = ground arith
lookup-remove key k ((l, w) ∷ entries) =
    ground (arith, beq_iff key k, beq_iff k l, beq_iff key l, lookup-remove key k entries)

pub lookup-map_values :
    {V W : Type 0} (f : V → W) (key : Bytes) (entries : List (Bytes × V))
    → lookup beq key (map_values f entries) ≡ Option.map f (lookup beq key entries)
unfolding lookup
lookup-map_values f key [] = refl
lookup-map_values f key ((k, v) ∷ entries) = elim (Bool-cases (beq key k)) [
  | inl here ↦ rw (here) refl
  | inr other ↦ rw (other) (lookup-map_values f key entries)
]
