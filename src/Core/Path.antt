-- ===== src/Core/Path.antt =====
-- scanbus-core/src/path.rs: object paths, built and read in one place.
pub mod Elements
pub mod Objects
pub mod Bounds
use scanbus_service.Common.{
  ℕ, ◌≡◌, refl, Bool, true, false, not, ◌||◌, ◌&&◌, Option, none, some, List, [], ◌∷◌, ◌++◌, Bytes,
  codes, beq, if◌then◌else◌, all, split, strip_prefix,
}
use scanbus_service.Common.Result.{Result, ok, err, to_option}
use scanbus_service.Common.Optional.{◌>>=◌}
use scanbus_service.Common.Decimal.{print, parse_uint, max_u32, max_u64}
use scanbus_service.Core.Id.{ScannerId, new, is_empty}
use scanbus_service.Core.Profile
use scanbus_service.Core.Profile.{ProfileKind}

abbrev pub root : Bytes
root = codes "/org/scanbus"

abbrev pub scanner_element : Bytes
scanner_element = codes "scanner"

abbrev pub button_element : Bytes
button_element = codes "button"

abbrev pub job_element : Bytes
job_element = codes "job"

abbrev pub profile_element : Bytes
profile_element = codes "profile"

-- `{a}/{b}`
infixr 66 ◌/:◌
abbrev pub ◌/:◌ : Bytes → Bytes → Bytes
a /: b = a ++ b'/' ∷ b

unfoldable pub manager : Bytes
manager = root

unfoldable pub scanner : ScannerId → Bytes
scanner id = root /: scanner_element /: id.value

unfoldable pub button : ScannerId → ℕ → Bytes
button id index = root /: scanner_element /: id.value /: button_element /: print index

unfoldable pub job : ScannerId → ℕ → Bytes
job id job_id = root /: scanner_element /: id.value /: job_element /: print job_id

unfoldable pub profile : ProfileKind → Bytes
profile kind = root /: profile_element /: Profile.as_str kind

-- A doubled or a trailing slash leaves an empty element.
checked : List Bytes → Option (List Bytes)
checked parts = if all (λ part. not (is_empty part)) parts then some parts else none

below_root : Bytes → Option (List Bytes)
unfolding checked
below_root path = do
  under ← strip_prefix root path
  rest ← strip_prefix (codes "/") under
  checked (split b'/' rest)

-- The path elements below the root.
unfoldable pub elements : Bytes → Option (List Bytes)
unfolding below_root
elements path = if beq path root then some [] else below_root path

-- The `match` of each parser on the slice of elements.
scanner_of : List Bytes → Option ScannerId
scanner_of (k ∷ id ∷ []) = if beq k scanner_element then to_option (new id) else none
scanner_of _ = none

-- `[SCANNER, id, word, number]`
numbered : Bytes → ℕ → List Bytes → Option (ScannerId × ℕ)
numbered word max (k ∷ id ∷ w ∷ number ∷ []) =
    if beq k scanner_element && beq w word
    then (do i ← to_option (new id); n ← parse_uint max number; some (i, n))
    else none
numbered word max _ = none

profile_of : List Bytes → Option ProfileKind
profile_of (k ∷ name ∷ []) = if beq k profile_element then to_option (Profile.parse name) else none
profile_of _ = none

owner_of : List Bytes → Option ScannerId
owner_of (k ∷ id ∷ []) = if beq k scanner_element then to_option (new id) else none
owner_of (k ∷ id ∷ w ∷ last ∷ []) =
    if beq k scanner_element && (beq w button_element || beq w job_element)
    then to_option (new id)
    else none
owner_of _ = none

unfoldable pub scanner_id : Bytes → Option ScannerId
unfolding scanner_of
scanner_id path = do parts ← elements path; scanner_of parts

unfoldable pub button_index : Bytes → Option (ScannerId × ℕ)
unfolding numbered
button_index path = do parts ← elements path; numbered button_element max_u32 parts

unfoldable pub job_id : Bytes → Option (ScannerId × ℕ)
unfolding numbered
job_id path = do parts ← elements path; numbered job_element max_u64 parts

unfoldable pub profile_kind : Bytes → Option ProfileKind
unfolding profile_of
profile_kind path = do parts ← elements path; profile_of parts

unfoldable pub owning_scanner : Bytes → Option ScannerId
unfolding owner_of
owning_scanner path = do parts ← elements path; owner_of parts

doubled_slash : scanner_id (codes "/org/scanbus/scanner//mock_x") ≡ none
unfolding scanner_id elements beq strip_prefix split
doubled_slash = refl

negative_index : button_index (codes "/org/scanbus/scanner/m/button/-1") ≡ none
unfolding button_index elements beq strip_prefix split new parse_uint
negative_index = refl
