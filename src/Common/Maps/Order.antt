-- ===== src/Common/Maps/Order.antt =====
-- The keys of a map stand in their order, whatever is inserted and removed.
use mathlib.Core.Path.{◌≡◌, refl}
use mathlib.Core.Logic.{inl, inr}
use mathlib.Core.Bool.{true, false}
use mathlib.Core.Option.{none, some}
use mathlib.Core.List.{List, [], ◌∷◌}
use native.Mathlib.Omega.{arith}
use scanbus_service.Common.Tests.{Bool-cases}
use scanbus_service.Common.Lists.{All}
use scanbus_service.Common.Text.{Bytes, beq, beq→eq, beq_refl}
use scanbus_service.Common.Maps.{lookup, insert, remove, text_before, map_values}

text_before_irrefl : (s : Bytes) → text_before s s ≡ false
text_before_irrefl [] = refl
text_before_irrefl (c ∷ s) = ground (arith, text_before_irrefl s)

pub text_before_trans :
    (s t u : Bytes) → text_before s t ≡ true → text_before t u ≡ true → text_before s u ≡ true
text_before_trans [] [] u h k = absurd (cc)
text_before_trans (c ∷ s) [] u h k = absurd (cc)
text_before_trans [] (d ∷ t) [] h k = absurd (cc)
text_before_trans [] (d ∷ t) (e ∷ u) h k = refl
text_before_trans (c ∷ s) (d ∷ t) [] h k = absurd (cc)
text_before_trans (c ∷ s) (d ∷ t) (e ∷ u) h k = ground (arith, text_before_trans s t u)

-- Of two different texts one stands before the other.
pub text_before_total :
    (s t : Bytes) → beq s t ≡ false → text_before s t ≡ false → text_before t s ≡ true
unfolding beq
text_before_total [] [] h k = absurd (cc)
text_before_total [] (d ∷ t) h k = absurd (cc)
text_before_total (c ∷ s) [] h k = refl
text_before_total (c ∷ s) (d ∷ t) h k = ground (arith, text_before_total s t)

-- Every key of the entries stands behind `key`.
abbrev pub IsAbove : {V : Type 0} → Bytes → List (Bytes × V) → Type 0
IsAbove key [] = Unit
IsAbove key ((k, v) ∷ entries) = (text_before key k ≡ true) × IsAbove key entries

abbrev pub IsSorted : {V : Type 0} → List (Bytes × V) → Type 0
IsSorted [] = Unit
IsSorted ((k, v) ∷ entries) = IsAbove k entries × IsSorted entries

IsAbove-trans :
    {V : Type 0} (k l : Bytes) (entries : List (Bytes × V))
    → text_before k l ≡ true
    → IsAbove l entries
    → IsAbove k entries
IsAbove-trans k l [] h a = tt
IsAbove-trans k l ((m, v) ∷ entries) h (b, a) =
    (text_before_trans k l m h b, IsAbove-trans k l entries h a)

-- A key that stands before all others is not among them.
pub lookup-IsAbove :
    {V : Type 0} (k : Bytes) (entries : List (Bytes × V))
    → IsAbove k entries
    → lookup beq k entries ≡ none
unfolding lookup
lookup-IsAbove k [] a = refl
lookup-IsAbove k ((l, v) ∷ entries) (b, a) = elim (Bool-cases (beq k l)) [
  | inr other ↦ rw (other) (lookup-IsAbove k entries a)
  | inl here ↦
      let clash : text_before k k ≡ true = rw (← beq→eq k l here) at b in
      absurd (cc (text_before_irrefl k))
]

insert-IsAbove :
    {V : Type 0} (k l : Bytes) (v : V) (entries : List (Bytes × V))
    → text_before l k ≡ true
    → IsAbove l entries
    → IsAbove l (insert beq text_before k v entries)
unfolding insert
insert-IsAbove k l v [] h a = (h, tt)
insert-IsAbove k l v ((m, w) ∷ entries) h (b, a) = elim (Bool-cases (beq k m)) [
  | inl here ↦ rw (here) (h, a)
  | inr other ↦ elim (Bool-cases (text_before k m)) [
    | inl front ↦ rw (other, front) (h, (b, a))
    | inr back ↦ rw (other, back) (b, insert-IsAbove k l v entries h a)
  ]
]

pub insert-IsSorted :
    {V : Type 0} (k : Bytes) (v : V) (entries : List (Bytes × V))
    → IsSorted entries
    → IsSorted (insert beq text_before k v entries)
unfolding insert
insert-IsSorted k v [] h = (tt, tt)
insert-IsSorted k v ((l, w) ∷ entries) (a, h) = elim (Bool-cases (beq k l)) [
  | inl here ↦ rw (here, beq→eq k l here) (a, h)
  | inr other ↦ elim (Bool-cases (text_before k l)) [
    | inl front ↦ rw (other, front) ((front, IsAbove-trans k l entries front a), (a, h))
    | inr back ↦
        rw (other, back)
          (
            insert-IsAbove k l v entries (text_before_total k l other back) a,
            insert-IsSorted k v entries h,
          )
  ]
]

remove-IsAbove :
    {V : Type 0} (k l : Bytes) (entries : List (Bytes × V))
    → IsAbove l entries
    → IsAbove l (remove k entries)
unfolding remove
remove-IsAbove k l [] a = tt
remove-IsAbove k l ((m, w) ∷ entries) (b, a) = elim (Bool-cases (beq k m)) [
  | inl here ↦ rw (here) (remove-IsAbove k l entries a)
  | inr other ↦ rw (other) (b, remove-IsAbove k l entries a)
]

pub remove-IsSorted :
    {V : Type 0} (k : Bytes) (entries : List (Bytes × V))
    → IsSorted entries
    → IsSorted (remove k entries)
unfolding remove
remove-IsSorted k [] h = tt
remove-IsSorted k ((l, w) ∷ entries) (a, h) = elim (Bool-cases (beq k l)) [
  | inl here ↦ rw (here) (remove-IsSorted k entries h)
  | inr other ↦ rw (other) (remove-IsAbove k l entries a, remove-IsSorted k entries h)
]

map_values-IsAbove :
    {V W : Type 0} (f : V → W) (l : Bytes) (entries : List (Bytes × V))
    → IsAbove l entries
    → IsAbove l (map_values f entries)
map_values-IsAbove f l [] a = tt
map_values-IsAbove f l ((k, v) ∷ entries) (b, a) = (b, map_values-IsAbove f l entries a)

pub map_values-IsSorted :
    {V W : Type 0} (f : V → W) (entries : List (Bytes × V))
    → IsSorted entries
    → IsSorted (map_values f entries)
map_values-IsSorted f [] h = tt
map_values-IsSorted f ((k, v) ∷ entries) (a, h) =
    (map_values-IsAbove f k entries a, map_values-IsSorted f entries h)

-- A key that stands behind another is not the other.
apart : (k l : Bytes) → text_before k l ≡ true → beq l k ≡ false
apart k l h = elim (Bool-cases (beq l k)) [
  | inr other ↦ other
  | inl same ↦
      let clash : text_before k k ≡ true = rw (beq→eq l k same) at h in
      absurd (cc (text_before_irrefl k))
]

found_behind :
    {V : Type 0} (k : Bytes) (v : V) (tail entries : List (Bytes × V))
    → IsAbove k tail
    → All (λ e. lookup beq e.0 entries ≡ some e.1) tail
    → All (λ e. lookup beq e.0 ((k, v) ∷ entries) ≡ some e.1) tail
unfolding lookup
found_behind k v [] entries a h = tt
found_behind k v ((l, w) ∷ tail) entries (b, a) (here, h) =
    (rw (apart k l b) here, found_behind k v tail entries a h)

-- Every entry of a map is found under its key.
pub sorted_found :
    {V : Type 0} (entries : List (Bytes × V))
    → IsSorted entries
    → All (λ e. lookup beq e.0 entries ≡ some e.1) entries
unfolding lookup
sorted_found [] h = tt
sorted_found ((k, v) ∷ entries) (a, h) =
    (rw (beq_refl k) refl, found_behind k v entries entries a (sorted_found entries h))

pub ahead : (k l : Bytes) → text_before k l ≡ true → beq k l ≡ false
ahead k l h = elim (Bool-cases (beq k l)) [
  | inr other ↦ other
  | inl same ↦
      let clash : text_before l l ≡ true = rw (beq→eq k l same) at h in
      absurd (cc (text_before_irrefl l))
]
