-- ===== src/Daemon/Scanners/Index.antt =====
-- scanbus-daemon/src/scanners.rs: the index of the addresses never names a scanner that is not there.
use mathlib.Core.Option
use mathlib.Core.Option.{some-injective}
use scanbus_service.Common.{
  ◌≡◌, refl, true, false, Option, none, some, List, Bytes, beq, beq_refl, beq→eq, arith, Bool-cases,
  inl, inr, if◌then◌else◌,
}
use scanbus_service.Common.Maps.{
  lookup, insert, remove, text_before, lookup-put, lookup-put_self, lookup-remove,
}
use scanbus_service.Common.Maps.Order.{IsSorted, insert-IsSorted, remove-IsSorted}
use scanbus_service.Core.Id.{ScannerId}
use scanbus_service.Daemon.Scanners.{Entry, Registry}

-- The address that the entry of a key claimed.
abbrev pub address_at : Bytes → List (Bytes × Entry) → Option Bytes
address_at key entries = Option.map (λ e. e.address) (lookup beq key entries)

-- The entries stand in the order of their ids, and every address of the index is the address of the
-- scanner that it names.
abbrev pub IsIndexed : List (Bytes × Entry) → List (Bytes × ScannerId) → Type 0
IsIndexed entries owners =
    IsSorted entries
    × ((a : Bytes) (i : ScannerId)
        → lookup beq a owners ≡ some i
        → address_at i.value entries ≡ some a)

abbrev pub IsWell : Registry → Type 0
IsWell r = IsIndexed r.entries r.owners

-- An entry that keeps the address of the one it replaces.
pub put_same-IsIndexed :
    (key : Bytes) (old entry : Entry) (entries : List (Bytes × Entry))
    (owners : List (Bytes × ScannerId))
    → IsIndexed entries owners
    → lookup beq key entries ≡ some old
    → old.address ≡ entry.address
    → IsIndexed (insert beq text_before key entry entries) owners
put_same-IsIndexed key old entry entries owners (sorted, owned) found same = (
  insert-IsSorted key entry entries sorted,
  λ a i h. rw (lookup-put i.value key entry entries) (elim (Bool-cases (beq i.value key)) [
    | inr other ↦ rw (other) (owned a i h)
    | inl here ↦
        let claimed : address_at key entries ≡ some a =
          rw (beq→eq i.value key here) at (owned a i h) in
        let claimed : some old.address ≡ some a = rw (found) at claimed in
        rw (here) (rw (← same) claimed)
  ]),
)

-- The owner of another address is another scanner.
other_owner :
    (key a : Bytes) (i : ScannerId) (old : Entry) (entries : List (Bytes × Entry))
    → lookup beq key entries ≡ some old
    → beq a old.address ≡ false
    → address_at i.value entries ≡ some a
    → beq i.value key ≡ false
other_owner key a i old entries found differs claimed = elim (Bool-cases (beq i.value key)) [
  | inr other ↦ other
  | inl here ↦
      let claimed : address_at key entries ≡ some a = rw (beq→eq i.value key here) at claimed in
      let claimed : some old.address ≡ some a = rw (found) at claimed in
      let same : beq a old.address ≡ true =
        rw (← some-injective old.address a claimed) (beq_refl old.address) in
      absurd (cc)
]

address_at-put :
    (key k : Bytes) (entry : Entry) (entries : List (Bytes × Entry))
    → beq key k ≡ false
    → address_at key (insert beq text_before k entry entries) ≡ address_at key entries
address_at-put key k entry entries other = rw (lookup-put key k entry entries, other) refl

other_key :
    (key : Bytes) (i : ScannerId) (a : Bytes) (entries : List (Bytes × Entry))
    → lookup beq key entries ≡ none
    → address_at i.value entries ≡ some a
    → beq i.value key ≡ false
other_key key i a entries fresh claimed = elim (Bool-cases (beq i.value key)) [
  | inr other ↦ other
  | inl here ↦
      let claimed : address_at key entries ≡ some a = rw (beq→eq i.value key here) at claimed in
      let claimed : ◌≡◌ {A = Option Bytes} none (some a) = rw (fresh) at claimed in absurd (cc)
]

-- What is left of the index after a removal stood there before, under another address.
kept_owner :
    (a from : Bytes) (owners : List (Bytes × ScannerId)) (i : ScannerId)
    → lookup beq a (remove from owners) ≡ some i
    → (beq a from ≡ false) × (lookup beq a owners ≡ some i)
kept_owner a from owners i h =
    let h : (if beq a from then none else lookup beq a owners) ≡ some i =
      rw (lookup-remove a from owners) at h in
    elim (Bool-cases (beq a from)) [
      | inl gone ↦ absurd (ground arith)
      | inr other ↦ (other, rw (other) at h)
    ]

-- An entry under a new id, which takes its address.
pub put_new-IsIndexed :
    (id : ScannerId) (entry : Entry) (entries : List (Bytes × Entry))
    (owners : List (Bytes × ScannerId))
    → IsIndexed entries owners
    → lookup beq id.value entries ≡ none
    → IsIndexed
        (insert beq text_before id.value entry entries)
        (insert beq text_before entry.address id owners)
put_new-IsIndexed id entry entries owners (sorted, owned) fresh = (
  insert-IsSorted id.value entry entries sorted,
  λ a i h.
      let h : (if beq a entry.address then some id else lookup beq a owners) ≡ some i =
        rw (lookup-put a entry.address id owners) at h in
      elim (Bool-cases (beq a entry.address)) [
        | inl here ↦
            let named : some id ≡ some i = rw (here) at h in
            rw
              (
                ← some-injective id i named,
                lookup-put_self id.value entry entries,
                beq→eq a entry.address here,
              )
              refl
        | inr other ↦
            let claimed : address_at i.value entries ≡ some a = owned a i (rw (other) at h) in
            rw
              (address_at-put i.value id.value entry entries
                (other_key id.value i a entries fresh claimed))
              claimed
      ],
)

-- An entry that moves to another address.
pub put_moved-IsIndexed :
    (id : ScannerId) (old entry : Entry) (entries : List (Bytes × Entry))
    (owners : List (Bytes × ScannerId))
    → IsIndexed entries owners
    → lookup beq id.value entries ≡ some old
    → IsIndexed
        (insert beq text_before id.value entry entries)
        (insert beq text_before entry.address id (remove old.address owners))
put_moved-IsIndexed id old entry entries owners (sorted, owned) found = (
  insert-IsSorted id.value entry entries sorted,
  λ a i h.
      let h : (if beq a entry.address then some id else lookup beq a (remove old.address owners))
          ≡ some i =
        rw (lookup-put a entry.address id (remove old.address owners)) at h in
      elim (Bool-cases (beq a entry.address)) [
        | inl here ↦
            let named : some id ≡ some i = rw (here) at h in
            rw
              (
                ← some-injective id i named,
                lookup-put_self id.value entry entries,
                beq→eq a entry.address here,
              )
              refl
        | inr other ↦
            let (differs, kept) = kept_owner a old.address owners i (rw (other) at h) in
            let claimed = owned a i kept in
            rw
              (address_at-put i.value id.value entry entries
                (other_owner id.value a i old entries found differs claimed))
              claimed
      ],
)

-- An entry that goes with its address.
pub drop-IsIndexed :
    (key : Bytes) (old : Entry) (entries : List (Bytes × Entry)) (owners : List (Bytes × ScannerId))
    → IsIndexed entries owners
    → lookup beq key entries ≡ some old
    → IsIndexed (remove key entries) (remove old.address owners)
drop-IsIndexed key old entries owners (sorted, owned) found = (
  remove-IsSorted key entries sorted,
  λ a i h.
      let (differs, kept) = kept_owner a old.address owners i h in
      let claimed = owned a i kept in
      let other = other_owner key a i old entries found differs claimed in
      rw (lookup-remove i.value key entries, other) claimed,
)
