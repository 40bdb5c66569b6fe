-- ===== src/Daemon/Options.antt =====
-- scanbus-daemon/src/profiles/options.rs: the options of each profile, declared once.
-- An error message is a constructor that carries what the message prints.
pub mod Schema
pub mod Reading
use scanbus_service.Common.{
  ℕ, ◌≡◌, ◌≤◌, refl, Bool, true, false, not, ◌||◌, ◌&&◌, Option, none, some, List, [], ◌∷◌, map,
  Bytes, codes, beq, leb, if◌then◌else◌, find,
}
use scanbus_service.Common.Int.{ℤ, pos, negsuc}
use scanbus_service.Common.Result.{Result, ok, err, ◌>>=◌, ok_or}
use scanbus_service.Core.Profile.{ProfileKind}
use scanbus_service.Core.Value
use scanbus_service.Core.Value.{Value, Dict}

abbrev pub format_key : Bytes
format_key = codes "format"

abbrev pub quality_key : Bytes
quality_key = codes "quality"

abbrev pub multi_page_key : Bytes
multi_page_key = codes "multi_page"

abbrev pub output_folder_key : Bytes
output_folder_key = codes "output_folder"

-- `REGISTERED`
abbrev pub registered : List ProfileKind
registered = ProfileKind.image ∷ ProfileKind.document ∷ []

pub data ValueType : Type 0 where
  str : List Bytes → ValueType
  integer : (min max : ℕ) → ValueType
  boolean : ValueType
  path : ValueType

pub data Fallback : Type 0 where
  str : Bytes → Fallback
  integer : ℕ → Fallback
  boolean : Bool → Fallback
  output_folder : Fallback

pub record OptionDecl : Type 0 where
  pub key : Bytes
  pub value : ValueType
  pub fallback : Fallback
  pub description : Bytes

-- What goes wrong with an option.
pub data OptionError : Type 0 where
  not_implemented : ProfileKind → OptionError
  unknown_option : ProfileKind → Bytes → OptionError
  must_be_string : ProfileKind → Bytes → OptionError
  must_be_one_of : ProfileKind → Bytes → List Bytes → Bytes → OptionError
  must_be_boolean : ProfileKind → Bytes → OptionError
  must_be_integer : ProfileKind → Bytes → OptionError
  must_be_in : ProfileKind → Bytes → ℕ → ℕ → ℕ → OptionError
  no_fallback : ProfileKind → Bytes → OptionError

abbrev folder_option : Bytes → OptionDecl
folder_option description = record {
  key = output_folder_key;
  value = ValueType.path;
  fallback = Fallback.output_folder;
  description = description;
}

-- `IMAGE`
abbrev pub image_options : List OptionDecl
image_options =
    record {
      key = format_key;
      value = ValueType.str (codes "jpeg" ∷ codes "jpg" ∷ codes "png" ∷ []);
      fallback = Fallback.str (codes "jpeg");
      description = codes "Encoding of the written page files";
    }
    ∷ record {
      key = quality_key;
      value = ValueType.integer 1 100;
      fallback = Fallback.integer 90;
      description = codes "JPEG quality; ignored when format is png";
    }
    ∷ folder_option (codes "Directory the pages are written to")
    ∷ []

-- `DOCUMENT`
abbrev pub document_options : List OptionDecl
document_options =
    record {
      key = format_key;
      value = ValueType.str (codes "pdf" ∷ []);
      fallback = Fallback.str (codes "pdf");
      description = codes "Output document format";
    }
    ∷ record {
      key = multi_page_key;
      value = ValueType.boolean;
      fallback = Fallback.boolean true;
      description = codes "Assemble every page into one PDF instead of one PDF per page";
    }
    ∷ folder_option (codes "Directory the document is written to")
    ∷ []

unfoldable pub declarations : ProfileKind → Result (List OptionDecl) OptionError
declarations ProfileKind.image = ok image_options
declarations ProfileKind.document = ok document_options
declarations ProfileKind.email = err (not_implemented ProfileKind.email)
declarations ProfileKind.ocr = err (not_implemented ProfileKind.ocr)

-- `as_u64`
unfoldable pub as_u64 : Value → Option ℕ
as_u64 (Value.u64 v) = some v
as_u64 (Value.i64 (pos v)) = some v
as_u64 _ = none

-- `values.contains(text)`
abbrev pub one_of : List Bytes → Bytes → Bool
one_of [] text = false
one_of (v ∷ values) text = beq v text || one_of values text

abbrev pub no_values : List Bytes → Bool
no_values [] = true
no_values (v ∷ values) = false

check_text : ProfileKind → Bytes → List Bytes → Value → Result (Unit {0}) OptionError
check_text kind key values (Value.str text) =
    if not (no_values values) && not (one_of values text)
    then err (must_be_one_of kind key values text)
    else ok tt
check_text kind key values _ = err (must_be_string kind key)

check_string : ProfileKind → Bytes → Value → Result (Unit {0}) OptionError
check_string kind key (Value.str text) = ok tt
check_string kind key _ = err (must_be_string kind key)

check_boolean : ProfileKind → Bytes → Value → Result (Unit {0}) OptionError
check_boolean kind key (Value.bool flag) = ok tt
check_boolean kind key _ = err (must_be_boolean kind key)

unfoldable pub check_integer : ProfileKind → Bytes → ℕ → ℕ → Value → Result (Unit {0}) OptionError
check_integer kind key min max value = ok_or (as_u64 value) (must_be_integer kind key) >>= λ number.
    if leb min number && leb number max then ok tt else err (must_be_in kind key min max number)

-- `OptionDecl::check`
unfoldable pub check : OptionDecl → ProfileKind → Value → Result (Unit {0}) OptionError
unfolding check_text check_string check_boolean check_integer as_u64
check decl kind value = elim decl.value [
  | ValueType.str values ↦ check_text kind decl.key values value
  | ValueType.path ↦ check_string kind decl.key value
  | ValueType.boolean ↦ check_boolean kind decl.key value
  | ValueType.integer min max ↦ check_integer kind decl.key min max value
]

abbrev pub find_decl : Bytes → List OptionDecl → Option OptionDecl
find_decl key declared = find (λ decl. beq decl.key key) declared

-- The loop of `validate`
check_all : ProfileKind → List OptionDecl → Dict → Result (Unit {0}) OptionError
check_all kind declared [] = ok tt
check_all kind declared ((key, value) ∷ options) =
    let rest = check_all kind declared options in
    do
      decl ← ok_or (find_decl key declared) (unknown_option kind key)
      done ← check decl kind value
      rest

unfoldable pub validate : ProfileKind → Dict → Result (Unit {0}) OptionError
unfolding check_all
validate kind options = do declared ← declarations kind; check_all kind declared options

abbrev pub literal_fallback : OptionDecl → Option Value
literal_fallback decl = elim decl.fallback [
  | Fallback.str text ↦ some (Value.str text)
  | Fallback.integer number ↦ some (Value.u64 number)
  | Fallback.boolean flag ↦ some (Value.bool flag)
  | Fallback.output_folder ↦ none
]

-- The literal fallbacks of a table, by key.
defaults_of : List OptionDecl → Dict
defaults_of [] = []
defaults_of (decl ∷ declared) =
    let rest = defaults_of declared in
    elim (literal_fallback decl) [ none ↦ rest | some v ↦ (decl.key, v) ∷ rest ]

unfoldable pub stored_defaults : ProfileKind → Dict
unfolding defaults_of
stored_defaults kind = elim (declarations kind) [ ok declared ↦ defaults_of declared | err e ↦ [] ]

-- `declaration`
abbrev pub declaration : ProfileKind → Bytes → Result OptionDecl OptionError
declaration kind key = do
  declared ← declarations kind
  ok_or (find_decl key declared) (unknown_option kind key)

text_of : ProfileKind → Bytes → Value → Result Bytes OptionError
text_of kind key (Value.str text) = ok text
text_of kind key _ = err (must_be_string kind key)

flag_of : ProfileKind → Bytes → Value → Result Bool OptionError
flag_of kind key (Value.bool flag) = ok flag
flag_of kind key _ = err (must_be_boolean kind key)

unfoldable pub string_value : ProfileKind → Bytes → Dict → Result Bytes OptionError
unfolding text_of
string_value kind key options = do
  decl ← declaration kind key
  elim (Value.get key options) [
    | some value ↦ check decl kind value >>= λ u. text_of kind key value
    | none ↦ elim decl.fallback [ Fallback.str text ↦ ok text | _ ↦ err (no_fallback kind key) ]
  ]

unfoldable pub integer_value : ProfileKind → Bytes → Dict → Result ℕ OptionError
integer_value kind key options = do
  decl ← declaration kind key
  elim (Value.get key options) [
    | some value ↦ check decl kind value >>= λ u. ok_or (as_u64 value) (must_be_integer kind key)
    | none ↦ elim decl.fallback [
      | Fallback.integer number ↦ ok number
      | _ ↦ err (no_fallback kind key)
    ]
  ]

unfoldable pub boolean_value : ProfileKind → Bytes → Dict → Result Bool OptionError
unfolding flag_of
boolean_value kind key options = do
  decl ← declaration kind key
  elim (Value.get key options) [
    | some value ↦ check decl kind value >>= λ u. flag_of kind key value
    | none ↦ elim decl.fallback [ Fallback.boolean flag ↦ ok flag | _ ↦ err (no_fallback kind key) ]
  ]
