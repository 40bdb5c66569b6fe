-- ===== src/Core/Value.antt =====
-- scanbus-core/src/model/value.rs: `Value`, the untyped corner of the model. An `f64` is the number
-- of its 64 bits; nothing here computes with one.
use scanbus_service.Common.{ℕ, Bool, Option, none, some, List, [], ◌∷◌, Bytes, beq, if◌then◌else◌}
use scanbus_service.Common.Int.{ℤ}

mutual
  pub data Value : Type 0 where
    bool : Bool → Value
    u64 : ℕ → Value
    i64 : ℤ → Value
    f64 : ℕ → Value
    str : Bytes → Value
    array : Values → Value
    dict : Entries → Value

  pub data Values : Type 0 where
    nil : Values
    cons : Value → Values → Values

  pub data Entries : Type 0 where
    end : Entries
    entry : Bytes → Value → Entries → Entries

-- `BTreeMap<String, Value>`, in the order of its keys.
abbrev pub Dict : Type 0
Dict = List (Bytes × Value)

-- `map.get(key)`
abbrev pub get {ℓ} : {A : Type ℓ} → Bytes → List (Bytes × A) → Option A
get key [] = none
get key ((k, v) ∷ m) = if beq k key then some v else get key m
