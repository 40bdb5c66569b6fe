-- ===== src/Core/Profile.antt =====
-- scanbus-core/src/model/profile.rs: the four post-processing profiles.
use scanbus_service.Common.{
  ◌≡◌, ◌↔◌, refl, arith, beq, beq→eq, Bool, true, false, ◌||◌, Option, none, some, List, [], ◌∷◌,
  map, Bytes, codes, filter, contains, lower, if◌then◌else◌,
}
use scanbus_service.Common.Result.{Result, ok, map_ok}
use scanbus_service.Core.Names.{ParseError, parse_name}
use scanbus_service.Core.Id.{is_empty}

pub data ProfileKind : Type 0 where
  image document email ocr : ProfileKind

-- `ProfileKind::ALL`
abbrev pub variants : List ProfileKind
variants = ProfileKind.image ∷ ProfileKind.document ∷ ProfileKind.email ∷ ProfileKind.ocr ∷ []

unfoldable pub as_str : ProfileKind → Bytes
as_str ProfileKind.image = codes "image"
as_str ProfileKind.document = codes "document"
as_str ProfileKind.email = codes "email"
as_str ProfileKind.ocr = codes "ocr"

abbrev pub is_supported : ProfileKind → Bool
is_supported ProfileKind.image = true
is_supported ProfileKind.document = true
is_supported _ = false

pub supported : List ProfileKind
supported = filter is_supported variants

-- `ProfileKind::from_str`
unfoldable pub parse : Bytes → Result ProfileKind ParseError
parse s = parse_name "ProfileKind" variants as_str s

pub parse_optional : Bytes → Result (Option ProfileKind) ParseError
parse_optional s = if is_empty s then ok none else map_ok some (parse s)

pub optional_as_str : Option ProfileKind → Bytes
optional_as_str none = []
optional_as_str (some kind) = as_str kind

-- The profile that a key's label suggests.
pub implied_profile : Bytes → Option ProfileKind
implied_profile device_label =
    let lowered = map lower device_label in
    if contains (codes "ocr") lowered || contains (codes "searchable") lowered
    then some ProfileKind.ocr
    else if contains (codes "e-mail") lowered
        || contains (codes "email") lowered
        || contains (codes "mail") lowered
    then some ProfileKind.email
    else if contains (codes "image") lowered
        || contains (codes "photo") lowered
        || contains (codes "picture") lowered
    then some ProfileKind.image
    else if contains (codes "file") lowered
        || contains (codes "document") lowered
        || contains (codes "pdf") lowered
    then some ProfileKind.document
    else none

pub parse-as_str : (k : ProfileKind) → parse (as_str k) ≡ ok k
unfolding parse beq as_str
parse-as_str ProfileKind.image = refl
parse-as_str ProfileKind.document = refl
parse-as_str ProfileKind.email = refl
parse-as_str ProfileKind.ocr = refl

pub parse→as_str : (s : Bytes) (k : ProfileKind) → parse s ≡ ok k → as_str k ≡ s
unfolding parse
parse→as_str s k h = ground (
  arith,
  beq→eq (as_str ProfileKind.image) s,
  beq→eq (as_str ProfileKind.document) s,
  beq→eq (as_str ProfileKind.email) s,
  beq→eq (as_str ProfileKind.ocr) s,
)

optional_as_str-cons : (k : ProfileKind) → is_empty (as_str k) ≡ false
unfolding as_str
optional_as_str-cons ProfileKind.image = refl
optional_as_str-cons _ = refl

optional→ : (s : Bytes) (p : Option ProfileKind) → parse_optional s ≡ ok p → optional_as_str p ≡ s
unfolding parse_optional optional_as_str
optional→ [] p h = ground arith
optional→ (c ∷ s) none h = ground arith
optional→ (c ∷ s) (some k) h = ground (arith, parse→as_str (c ∷ s) k)

optional← : (p : Option ProfileKind) → parse_optional (optional_as_str p) ≡ ok p
unfolding parse_optional optional_as_str
optional← none = refl
optional← (some k) = rw (optional_as_str-cons k, parse-as_str k)

-- `""` and the four names are the only renderings of an optional profile, each is read back as it
-- was written, and every other string is an error.
pub parse_optional_iff :
    (s : Bytes) (p : Option ProfileKind) → (parse_optional s ≡ ok p) ↔ (optional_as_str p ≡ s)
parse_optional_iff s p = (optional→ s p, λ e. rw (← e) (optional← p))
