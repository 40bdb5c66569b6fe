-- ===== src/Client/Select.antt =====
-- scanbus-client/src/select.rs: which exported object a selector names. `to_lowercase` of the standard
-- library goes by the Unicode tables, so it is an argument of the searches that call it.
pub mod Ladder
pub mod Naming
pub mod Order
use scanbus_service.Common.{
  ℕ, Bool, true, false, not, ◌&&◌, Option, none, some, List, [], ◌∷◌, ◌++◌, Bytes, beq, codes, map,
  filter, find, lower, starts_with, contains, ◌==◌, if◌then◌else◌,
}
use scanbus_service.Common.Decimal.{parse_uint, print, max_u32}
use scanbus_service.Common.Result.{Result, ok, err, ok_or}
use scanbus_service.Core.Id.{ScannerId, is_empty}
use scanbus_service.Core.Path as ObjectPath

pub data Match : Type 0 where
  any_spelling exact_id : Match

pub data ObjectKind : Type 0 where
  scanner_kind button_kind job_kind profile_kind : ObjectKind

-- `ObjectKind::as_str`
unfoldable pub kind_name : ObjectKind → Bytes
kind_name scanner_kind = codes "scanner"
kind_name button_kind = codes "button"
kind_name job_kind = codes "job"
kind_name profile_kind = codes "profile"

pub data SelectError : Type 0 where
  not_found : (kind : ObjectKind) (selector : Bytes) (known : List Bytes) → SelectError
  ambiguous : (kind : ObjectKind) (selector : Bytes) (candidates : List Bytes) → SelectError

pub record Scanner : Type 0 where
  pub id : ScannerId
  pub name : Bytes

pub record Button : Type 0 where
  pub scanner : ScannerId
  pub index : ℕ
  pub device_label : Bytes

pub record Job : Type 0 where
  pub scanner : ScannerId
  pub id : ℕ

pub record Objects : Type 0 where
  pub scanners : List Scanner
  pub buttons : List Button
  pub jobs : List Job

abbrev pub scanner_path : Scanner → Bytes
scanner_path s = ObjectPath.scanner s.id

abbrev pub button_path : Button → Bytes
button_path b = ObjectPath.button b.scanner b.index

abbrev pub job_path : Job → Bytes
job_path j = ObjectPath.job j.scanner j.id

-- `{} ({})`
abbrev with_name : Bytes → Bytes → Bytes
with_name text name = if is_empty name then text else text ++ codes " (" ++ name ++ codes ")"

-- `Scanner::label`, `Button::label`, `Job::label`
unfoldable pub scanner_label : Scanner → Bytes
scanner_label s = with_name s.id.value s.name

unfoldable pub button_label : Button → Bytes
button_label b = with_name (print b.index) b.device_label

abbrev pub job_label : Job → Bytes
job_label j = job_path j

-- `decide`: the first stage that matches anything decides.
unfoldable pub decide {ℓ} :
    {A : Type ℓ} → ObjectKind → Bytes → (A → Bytes) → List (List A) → Option (Result A SelectError)
decide kind selector label [] = none
decide kind selector label ([] ∷ stages) = decide kind selector label stages
decide kind selector label ((one ∷ []) ∷ stages) = some (ok one)
decide kind selector label ((a ∷ b ∷ many) ∷ stages) =
    some (err (ambiguous kind selector (map label (a ∷ b ∷ many))))

-- `unwrap_or_else(|| Err(missing()))`
abbrev pub decided_or {ℓ} :
    {A : Type ℓ} → SelectError → Option (Result A SelectError) → Result A SelectError
decided_or missing none = err missing
decided_or missing (some result) = result

abbrev pub slash : Bytes
slash = codes "/"

abbrev pub by_id : Bytes → Scanner → Bool
by_id selector s = beq s.id.value selector

abbrev pub by_path : Bytes → Scanner → Bool
by_path selector s = beq (scanner_path s) selector

module _ (to_lowercase : Bytes → Bytes) where
  abbrev pub by_id_prefix : Bytes → Scanner → Bool
  by_id_prefix selector s = starts_with (to_lowercase selector) (to_lowercase s.id.value)

  abbrev pub by_name : Bytes → Scanner → Bool
  by_name selector s = contains (to_lowercase selector) (to_lowercase s.name)

  abbrev pub scanner_stages : Bytes → List Scanner → List (List Scanner)
  scanner_stages selector scanners =
      filter (by_id selector) scanners
      ∷ filter (by_id_prefix selector) scanners
      ∷ filter (by_name selector) scanners
      ∷ []

  -- `Objects::scanner`
  unfoldable pub scanner : Objects → Bytes → Match → Result Scanner SelectError
  scanner objects selector matching =
      let missing = not_found scanner_kind selector (map scanner_label objects.scanners) in
      if is_empty selector then err missing else elim matching [
        | exact_id ↦ ok_or (find (by_id selector) objects.scanners) missing
        | any_spelling ↦
            if starts_with slash selector
            then ok_or (find (by_path selector) objects.scanners) missing
            else decided_or missing (
                decide scanner_kind selector scanner_label
                  (scanner_stages selector objects.scanners))
      ]

  abbrev pub of_scanner : Objects → ScannerId → List Button
  of_scanner objects id = filter (λ b. beq b.scanner.value id.value) objects.buttons

  -- `eq_ignore_ascii_case`
  abbrev pub by_label : Bytes → Button → Bool
  by_label selector b = beq (map lower b.device_label) (map lower selector)

  abbrev pub by_label_part : Bytes → Button → Bool
  by_label_part selector b =
      not (is_empty b.device_label)
      && contains (to_lowercase selector) (to_lowercase b.device_label)

  abbrev pub by_index : ℕ → Button → Bool
  by_index index b = b.index == index

  abbrev pub button_stages : Bytes → List Button → List (List Button)
  button_stages selector buttons =
      filter (by_label selector) buttons ∷ filter (by_label_part selector) buttons ∷ []

  -- `Objects::button`
  unfoldable pub button : Objects → ScannerId → Bytes → Result Button SelectError
  button objects id selector =
      let missing = not_found button_kind selector (map button_label (of_scanner objects id)) in
      if is_empty selector then err missing else elim (parse_uint max_u32 selector) [
        | some index ↦ ok_or (find (by_index index) (of_scanner objects id)) missing
        | none ↦ decided_or missing (
            decide button_kind selector button_label
              (button_stages selector (of_scanner objects id)))
      ]

abbrev pub by_job_path : Bytes → Job → Bool
by_job_path selector j = beq (job_path j) selector

abbrev pub by_number : Bytes → Job → Bool
by_number selector j = beq (print j.id) selector

-- `Objects::job`
unfoldable pub job : Objects → Bytes → Result Job SelectError
job objects selector =
    let missing = not_found job_kind selector (map job_label objects.jobs) in
    if is_empty selector
    then err missing
    else if starts_with slash selector
    then ok_or (find (by_job_path selector) objects.jobs) missing
    else decided_or missing
        (decide job_kind selector job_label (filter (by_number selector) objects.jobs ∷ []))
