-- ===== src/Daemon/Options/Schema.antt =====
-- scanbus-daemon/src/profiles/options.rs: `schema`, and how a client reads it.
use mathlib.Core.Option
use scanbus_service.Common.{
  ap, ◌∙◌, ℕ, ◌≡◌, refl, Bool, true, false, ◌||◌, ◌&&◌, Option, none, some, List, [], ◌∷◌, map,
  Bytes, beq, leb, find, arith,
}
use scanbus_service.Common.Result.{Result, ok, err}
use scanbus_service.Core.Profile.{ProfileKind, is_supported}
use scanbus_service.Core.Value.{Value, Dict}
use scanbus_service.Daemon.Options.{
  ValueType, OptionDecl, OptionError, declarations, check, check_all, validate, literal_fallback,
  find_decl, one_of, no_values, as_u64, image_options, document_options, stored_defaults,
}

pub data TypeName : Type 0 where
  string integer boolean path : TypeName

pub record SchemaEntry : Type 0 where
  pub key : Bytes
  pub type_name : TypeName
  pub default : Value
  pub values : List Bytes
  pub min : Option Value
  pub max : Option Value
  pub description : Bytes

type_name : ValueType → TypeName
type_name (ValueType.str values) = string
type_name (ValueType.integer min max) = integer
type_name ValueType.boolean = boolean
type_name ValueType.path = path

values_of : ValueType → List Bytes
values_of (ValueType.str values) = values
values_of _ = []

min_of : ValueType → Option Value
min_of (ValueType.integer min max) = some (Value.u64 min)
min_of _ = none

max_of : ValueType → Option Value
max_of (ValueType.integer min max) = some (Value.u64 max)
max_of _ = none

abbrev default_of : Bytes → OptionDecl → Value
default_of folder decl = elim (literal_fallback decl) [ some v ↦ v | none ↦ Value.str folder ]

-- One declaration, resolved.
entry_of : Bytes → OptionDecl → SchemaEntry
unfolding type_name values_of min_of max_of
entry_of folder decl = record {
  key = decl.key;
  type_name = type_name decl.value;
  default = default_of folder decl;
  values = values_of decl.value;
  min = min_of decl.value;
  max = max_of decl.value;
  description = decl.description;
}

unfoldable pub schema : ProfileKind → Bytes → List SchemaEntry
unfolding entry_of
schema kind folder = elim (declarations kind) [
  | ok declared ↦ map (entry_of folder) declared
  | err e ↦ []
]

-- How a client reads an entry: the type, and then the values or the bounds if there are any.
abbrev at_least : Option Value → ℕ → Bool
at_least (some (Value.u64 lo)) n = leb lo n
at_least _ n = true

abbrev at_most : Option Value → ℕ → Bool
at_most (some (Value.u64 hi)) n = leb n hi
at_most _ n = true

abbrev pub accepts_number : SchemaEntry → Option ℕ → Bool
accepts_number e none = false
accepts_number e (some n) = at_least e.min n && at_most e.max n

abbrev pub is_bool : Value → Bool
is_bool (Value.bool b) = true
is_bool _ = false

abbrev pub accepts_text : List Bytes → Value → Bool
accepts_text values (Value.str text) = no_values values || one_of values text
accepts_text values _ = false

abbrev pub accepts : SchemaEntry → Value → Bool
accepts e v = elim e.type_name [
  | string ↦ accepts_text e.values v
  | path ↦ accepts_text [] v
  | boolean ↦ is_bool v
  | integer ↦ accepts_number e (as_u64 v)
]

abbrev pub is_ok : Result (Unit {0}) OptionError → Bool
is_ok (ok u) = true
is_ok (err e) = false

-- The check of a declaration and the client's reading of its entry agree on every value.
accepts-entry_of :
    (folder : Bytes) (decl : OptionDecl) (kind : ProfileKind) (v : Value)
    → accepts (entry_of folder decl) v ≡ is_ok (check decl kind v)
unfolding entry_of check
accepts-entry_of folder decl kind v = ground arith

-- What a client that holds only the schema would send.
abbrev pub accepts_found : Option SchemaEntry → Value → Bool
accepts_found none v = false
accepts_found (some e) v = accepts e v

abbrev pub schema_accepts : List SchemaEntry → Bytes → Value → Bool
schema_accepts entries key v = accepts_found (find (λ e. beq e.key key) entries) v

abbrev pub all_accepted : List SchemaEntry → Dict → Bool
all_accepted entries [] = true
all_accepted entries ((key, v) ∷ options) =
    schema_accepts entries key v && all_accepted entries options

find-map :
    (folder : Bytes) (key : Bytes) (declared : List OptionDecl)
    → find (λ e. beq e.key key) (map (entry_of folder) declared)
      ≡ Option.map (entry_of folder) (find_decl key declared)
unfolding entry_of
find-map folder key [] = refl
find-map folder key (d ∷ declared) = ground (arith, find-map folder key declared)

checks_found : ProfileKind → Option OptionDecl → Value → Bool
checks_found kind none v = false
checks_found kind (some d) v = is_ok (check d kind v)

accepts-checks :
    (folder : Bytes) (kind : ProfileKind) (v : Value) (o : Option OptionDecl)
    → accepts_found (Option.map (entry_of folder) o) v ≡ checks_found kind o v
unfolding checks_found
accepts-checks folder kind v none = refl
accepts-checks folder kind v (some d) = accepts-entry_of folder d kind v

schema_accepts-check :
    (folder key : Bytes) (v : Value) (kind : ProfileKind) (declared : List OptionDecl)
    → schema_accepts (map (entry_of folder) declared) key v
      ≡ checks_found kind (find_decl key declared) v
schema_accepts-check folder key v kind declared =
    ap (λ o. accepts_found o v) (find-map folder key declared)
    ∙ accepts-checks folder kind v (find_decl key declared)

all_accepted-check_all :
    (folder : Bytes) (kind : ProfileKind) (declared : List OptionDecl) (options : Dict)
    → all_accepted (map (entry_of folder) declared) options
      ≡ is_ok (check_all kind declared options)
unfolding check_all checks_found
all_accepted-check_all folder kind declared [] = refl
all_accepted-check_all folder kind declared ((key, v) ∷ options) = ground (
  arith,
  schema_accepts-check folder key v kind declared,
  all_accepted-check_all folder kind declared options,
)

-- For an implemented profile `validate` accepts an options map exactly if the published schema does,
-- entry by entry as a client reads it: a known key, the type, and the listed values or the bounds.
pub validate-schema :
    (kind : ProfileKind) (folder : Bytes) (options : Dict)
    → is_supported kind ≡ true
    → is_ok (validate kind options) ≡ all_accepted (schema kind folder) options
unfolding validate schema declarations
validate-schema ProfileKind.image folder options h =
    rw (all_accepted-check_all folder ProfileKind.image image_options options)
validate-schema ProfileKind.document folder options h =
    rw (all_accepted-check_all folder ProfileKind.document document_options options)
validate-schema ProfileKind.email folder options h = cc
validate-schema ProfileKind.ocr folder options h = cc

-- The profile that is not implemented refuses every map, the empty one too.
pub validate-unsupported :
    (kind : ProfileKind) (folder : Bytes) (options : Dict)
    → is_supported kind ≡ false
    → (is_ok (validate kind options) ≡ false)
      × (schema kind folder ≡ [])
      × (stored_defaults kind ≡ [])
unfolding validate schema declarations stored_defaults
validate-unsupported ProfileKind.image folder options h = cc
validate-unsupported ProfileKind.document folder options h = cc
validate-unsupported ProfileKind.email folder options h = (refl, refl, refl)
validate-unsupported ProfileKind.ocr folder options h = (refl, refl, refl)

-- The effective defaults as a client would write them back.
abbrev pub defaults_written : List SchemaEntry → Dict
defaults_written [] = []
defaults_written (e ∷ entries) = (e.key, e.default) ∷ defaults_written entries

-- A client that writes back every default of the schema, the resolved folder included, is accepted,
-- and so are the options of a fresh store.
pub defaults_valid :
    (kind : ProfileKind) (folder : Bytes)
    → is_supported kind ≡ true
    → (is_ok (validate kind (defaults_written (schema kind folder))) ≡ true)
      × (is_ok (validate kind (stored_defaults kind)) ≡ true)
unfolding validate schema declarations stored_defaults check as_u64 beq
defaults_valid ProfileKind.image folder h = (refl, refl)
defaults_valid ProfileKind.document folder h = (refl, refl)
defaults_valid ProfileKind.email folder h = cc
defaults_valid ProfileKind.ocr folder h = cc
