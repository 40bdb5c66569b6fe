-- ===== src/Core/Path/Objects.antt =====
-- scanbus-core/src/path.rs: the objects of the tree, their paths, and what the five parsers read.
use scanbus_service.Common.{
  ℕ, ◌≡◌, ◌↔◌, ◌≤◌, refl, sym, ◌∙◌, ap, Option, none, some, List, [], ◌∷◌, arith, Bytes, codes, beq,
  beq→eq,
}
use scanbus_service.Common.Decimal.{print, parse-print, max_u32, max_u64}
use scanbus_service.Common.Result.{Result, ok, err, to_option}
use scanbus_service.Common.Optional.{>>=-eq-some}
use scanbus_service.Core.Id.{ScannerId, InvalidScannerId, new}
use scanbus_service.Core.Id.Charset.{IsValid, IsValid-new, new_iff}
use scanbus_service.Core.Profile
use scanbus_service.Core.Profile.{ProfileKind}
use scanbus_service.Core.Path.{
  elements, scanner_element, button_element, job_element, profile_element, manager, scanner, button,
  job, profile, scanner_id, button_index, job_id, profile_kind, owning_scanner, scanner_of,
}
use scanbus_service.Core.Path.Elements.{
  elements-below, elements_sound, id-IsElement, print-IsElement,
}

-- The five kinds of object of the tree.
pub data Object : Type 0 where
  the_manager : Object
  scanner_object : ScannerId → Object
  button_object : ScannerId → ℕ → Object
  job_object : ScannerId → ℕ → Object
  profile_object : ProfileKind → Object

unfoldable pub path_of : Object → Bytes
path_of the_manager = manager
path_of (scanner_object id) = scanner id
path_of (button_object id n) = button id n
path_of (job_object id n) = job id n
path_of (profile_object k) = profile k

-- The ids are path elements and the numbers fit their widths.
abbrev pub IsLegal : Object → Type 0
IsLegal the_manager = Unit
IsLegal (scanner_object id) = IsValid id
IsLegal (button_object id n) = IsValid id × (n ≤ max_u32)
IsLegal (job_object id n) = IsValid id × (n ≤ max_u64)
IsLegal (profile_object k) = Unit

-- What the five parsers say of one path.
pub record Reading : Type 0 where
  pub as_scanner : Option ScannerId
  pub as_button : Option (ScannerId × ℕ)
  pub as_job : Option (ScannerId × ℕ)
  pub as_profile : Option ProfileKind
  pub owner : Option ScannerId

unfoldable pub reading : Bytes → Reading
reading path = record {
  as_scanner = scanner_id path;
  as_button = button_index path;
  as_job = job_id path;
  as_profile = profile_kind path;
  owner = owning_scanner path;
}

-- The parser of the object's own kind answers, and so does the owner's; the others refuse.
abbrev pub expected : Object → Reading
expected the_manager = record {
  as_scanner = none;
  as_button = none;
  as_job = none;
  as_profile = none;
  owner = none;
}
expected (scanner_object id) = record {
  as_scanner = some id;
  as_button = none;
  as_job = none;
  as_profile = none;
  owner = some id;
}
expected (button_object id n) = record {
  as_scanner = none;
  as_button = some (id, n);
  as_job = none;
  as_profile = none;
  owner = some id;
}
expected (job_object id n) = record {
  as_scanner = none;
  as_button = none;
  as_job = some (id, n);
  as_profile = none;
  owner = some id;
}
expected (profile_object k) = record {
  as_scanner = none;
  as_button = none;
  as_job = none;
  as_profile = some k;
  owner = none;
}

profile-elements :
    (k : ProfileKind) → elements (profile k) ≡ some (profile_element ∷ Profile.as_str k ∷ [])
unfolding profile Profile.as_str
profile-elements ProfileKind.image =
    elements-below profile_element (codes "image" ∷ []) ((cc, omega arith), ((cc, omega arith), tt))
profile-elements ProfileKind.document =
    elements-below profile_element (codes "document" ∷ [])
      ((cc, omega arith), ((cc, omega arith), tt))
profile-elements ProfileKind.email =
    elements-below profile_element (codes "email" ∷ []) ((cc, omega arith), ((cc, omega arith), tt))
profile-elements ProfileKind.ocr =
    elements-below profile_element (codes "ocr" ∷ []) ((cc, omega arith), ((cc, omega arith), tt))

scanner-elements :
    (id : ScannerId) → IsValid id → elements (scanner id) ≡ some (scanner_element ∷ id.value ∷ [])
unfolding scanner
scanner-elements id v =
    elements-below scanner_element (id.value ∷ []) ((cc, omega arith), (id-IsElement id v, tt))

button-elements :
    (id : ScannerId) (n : ℕ)
    → IsValid id
    → elements (button id n) ≡ some (scanner_element ∷ id.value ∷ button_element ∷ print n ∷ [])
unfolding button
button-elements id n v =
    elements-below scanner_element (id.value ∷ button_element ∷ print n ∷ [])
      ((cc, omega arith), (id-IsElement id v, ((cc, omega arith), (print-IsElement n, tt))))

job-elements :
    (id : ScannerId) (n : ℕ)
    → IsValid id
    → elements (job id n) ≡ some (scanner_element ∷ id.value ∷ job_element ∷ print n ∷ [])
unfolding job
job-elements id n v =
    elements-below scanner_element (id.value ∷ job_element ∷ print n ∷ [])
      ((cc, omega arith), (id-IsElement id v, ((cc, omega arith), (print-IsElement n, tt))))

-- The path of an object is read back as that object by the parser of its own kind, refused by the
-- parsers of the other kinds, and traced to the scanner that owns it, for every legal id and every
-- index and job id that fits its integer type.
pub reading-path_of : (o : Object) → IsLegal o → reading (path_of o) ≡ expected o
unfolding reading path_of scanner_id button_index job_id profile_kind owning_scanner beq
reading-path_of the_manager h = unfold manager elements in refl
reading-path_of (scanner_object id) h = rw (scanner-elements id h, IsValid-new id h)
reading-path_of (button_object id n) h =
    rw (button-elements id n h.0, IsValid-new id h.0, parse-print max_u32 n h.1)
reading-path_of (job_object id n) h =
    rw (job-elements id n h.0, IsValid-new id h.0, parse-print max_u64 n h.1)
reading-path_of (profile_object k) h = rw (profile-elements k, Profile.parse-as_str k)

expected-injective : (o p : Object) → expected o ≡ expected p → o ≡ p
expected-injective the_manager the_manager e = refl
expected-injective the_manager _ e = ground arith
expected-injective (scanner_object i) (scanner_object j) e = ground arith
expected-injective (scanner_object i) _ e = ground arith
expected-injective (button_object i n) (button_object j m) e = ground arith
expected-injective (button_object i n) _ e = ground arith
expected-injective (job_object i n) (job_object j m) e = ground arith
expected-injective (job_object i n) _ e = ground arith
expected-injective (profile_object k) (profile_object l) e = ground arith
expected-injective (profile_object k) _ e = ground arith

-- Distinct objects have distinct paths.
pub path_of-injective : (o p : Object) → IsLegal o → IsLegal p → path_of o ≡ path_of p → o ≡ p
path_of-injective o p ho hp e =
    expected-injective o p (sym (reading-path_of o ho) ∙ ap reading e ∙ reading-path_of p hp)

to_option_ok :
    (r : Result ScannerId InvalidScannerId) (id : ScannerId) → to_option r ≡ some id → r ≡ ok id
to_option_ok (ok i) id h = ground arith
to_option_ok (err e) id h = ground arith

scanner_of_shape :
    (parts : List Bytes) (id : ScannerId)
    → scanner_of parts ≡ some id
    → (parts ≡ scanner_element ∷ id.value ∷ []) × IsValid id
unfolding scanner_of
scanner_of_shape (k ∷ t ∷ []) id h =
    let word : k ≡ scanner_element = ground (arith, beq→eq k scanner_element) in
    let made : new t ≡ ok id = ground (arith, to_option_ok (new t) id) in
    let (v, valid) = (new_iff t id).0 made in (cc, valid)
scanner_of_shape _ id h = ground arith

scanner_path :
    (path : Bytes) (id : ScannerId) → scanner_id path ≡ some id → (path ≡ scanner id) × IsValid id
unfolding scanner_id scanner
scanner_path path id h =
    let (parts, e, f) = >>=-eq-some (elements path) scanner_of h in
    let (shape, v) = scanner_of_shape parts id f in
    (elements_sound path scanner_element (id.value ∷ []) (e ∙ ap some shape), v)

-- A path is read as a scanner exactly if it is the path of that scanner and the id is legal.
pub scanner_id_iff :
    (path : Bytes) (id : ScannerId)
    → (scanner_id path ≡ some id) ↔ ((path ≡ scanner id) × IsValid id)
unfolding reading path_of
scanner_id_iff path id = (
  scanner_path path id,
  λ p. rw p.0 (ap (λ r. r.as_scanner) (reading-path_of (scanner_object id) p.1)),
)
