-- ===== src/Brother/Fields.antt =====
-- scanbus-backend-brother/src/skey/fields.rs: the `KEY=VALUE;` payload.
use scanbus_service.Common.{
  ℕ, ◌≡◌, ◌≢◌, refl, ap, Option, none, some, List, [], ◌∷◌, ◌++◌, Bytes, Lacks, beq, split,
  split-append, split_once, split_once-append, strip_prefix, strip_last, if◌then◌else◌, arith,
  All-append,
}
use scanbus_service.Common.Optional.{◌>>=◌}

abbrev pub semicolon : ℕ
semicolon = b';'

abbrev pub equals : ℕ
equals = b'='

abbrev pub quote : ℕ
quote = b'"'

abbrev unwrap_or : Bytes → Option Bytes → Bytes
unwrap_or value none = value
unwrap_or value (some inner) = inner

unfoldable pub unquote : Bytes → Bytes
unquote value = unwrap_or value (strip_prefix (quote ∷ []) value >>= λ rest. strip_last quote rest)

-- One part: its value if it is the field wanted, and otherwise what the rest gives.
abbrev chosen : Bytes → Option (Bytes × Bytes) → Option Bytes → Option Bytes
chosen key none rest = rest
chosen key (some (name, value)) rest = if beq name key then some (unquote value) else rest

-- `filter_map(split_once('='))` and `find`, on the parts.
find_field : Bytes → List Bytes → Option Bytes
find_field key [] = none
find_field key (part ∷ parts) = chosen key (split_once equals part) (find_field key parts)

unfoldable pub field : Bytes → Bytes → Option Bytes
unfolding find_field
field payload key = find_field key (split semicolon payload)

-- A payload with the given fields, each closed by a semicolon.
unfoldable pub rendered : List (Bytes × Bytes) → Bytes
rendered [] = []
rendered ((name, value) ∷ fields) = (name ++ equals ∷ value) ++ semicolon ∷ rendered fields

-- No name has a separator in it, and no value a semicolon.
abbrev pub AreSeparable : List (Bytes × Bytes) → Type 0
AreSeparable [] = Unit
AreSeparable ((name, value) ∷ fields) =
    (Lacks equals name × Lacks semicolon name × Lacks semicolon value) × AreSeparable fields

-- The value of the first field of that name.
abbrev pub first_named : Bytes → List (Bytes × Bytes) → Option Bytes
first_named key [] = none
first_named key ((name, value) ∷ fields) =
    if beq name key then some (unquote value) else first_named key fields

split-rendered :
    (name value : Bytes) (more : List (Bytes × Bytes))
    → Lacks semicolon name
    → Lacks semicolon value
    → split semicolon (rendered ((name, value) ∷ more))
      ≡ (name ++ equals ∷ value) ∷ split semicolon (rendered more)
unfolding rendered
split-rendered name value more hn hv =
    split-append semicolon (name ++ equals ∷ value) (rendered more)
      (All-append (λ b. b ≢ semicolon) name (equals ∷ value) hn (ground arith, hv))

-- Every field of a payload is found under its name, and no other: `field` gives the unquoted value of
-- the first field of that name, and nothing if there is none, whatever stands inside the values.
pub field-rendered :
    (fields : List (Bytes × Bytes)) (key : Bytes)
    → AreSeparable fields
    → field (rendered fields) key ≡ first_named key fields
unfolding field rendered find_field split split_once
field-rendered [] key h = refl
field-rendered ((name, value) ∷ fields) key ((he, hn, hv), h) =
    rw (split-rendered name value fields hn hv, find_field, split_once-append equals name value he)
      (ap (λ rest. if beq name key then some (unquote value) else rest)
        (field-rendered fields key h))
