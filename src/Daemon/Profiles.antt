-- ===== src/Daemon/Profiles.antt =====
-- scanbus-daemon/src/profiles.rs: the registry of the profiles' options. The file of the store is what
-- was last written to it; whether a write succeeds is an argument.
pub mod Maps
pub mod Registry
use scanbus_service.Common.{
  ℕ, Bool, true, false, ◌&&◌, Option, none, some, List, [], ◌∷◌, map, Bytes, beq, ltb, ◌==◌,
  if◌then◌else◌,
}
unfoldable pub use scanbus_service.Common.Maps.{lookup, insert, text_before}
use scanbus_service.Common.Optional.{or_else}
use scanbus_service.Common.Result.{Result, ok, err}
use scanbus_service.Core.Profile.{ProfileKind}
use scanbus_service.Core.Value.{Value, Dict}
use scanbus_service.Daemon.Options.{OptionError, registered, stored_defaults, validate}

module _ {ℓ κ} {K : Type ℓ} {V : Type κ} (same before : K → K → Bool) where
  -- `for (key, value) in added { merged.insert(key, value); }`
  unfoldable pub merge : List (K × V) → List (K × V) → List (K × V)
  merge merged [] = merged
  merge merged ((k, v) ∷ added) = merge (insert same before k v merged) added

-- The order that `ProfileKind` derives.
abbrev pub rank : ProfileKind → ℕ
rank ProfileKind.image = 0
rank ProfileKind.document = 1
rank ProfileKind.email = 2
rank ProfileKind.ocr = 3

abbrev pub same_kind : ProfileKind → ProfileKind → Bool
same_kind k l = rank k == rank l

abbrev pub kind_before : ProfileKind → ProfileKind → Bool
kind_before k l = ltb (rank k) (rank l)

abbrev pub Stored : Type 0
Stored = List (ProfileKind × Dict)

-- `options`, whether there is a `store_path`, and what the file there holds.
pub record ProfileRegistry : Type 0 where
  pub options : Stored
  pub has_path : Bool
  pub file : Option Stored

-- `default_options`
abbrev pub default_options : Stored
default_options = map (λ kind. (kind, stored_defaults kind)) registered

-- `ProfileRegistry::ephemeral`
abbrev pub ephemeral : ProfileRegistry
ephemeral = record { options = default_options; has_path = false; file = none }

-- `load_options`, and the defaults if the file cannot be read
abbrev pub loaded : Option Stored → Stored
loaded none = default_options
loaded (some stored) = merge same_kind kind_before default_options stored

-- `ProfileRegistry::with_store_path`
abbrev pub with_store_path : Option Stored → ProfileRegistry
with_store_path file = record { options = loaded file; has_path = true; file = file }

-- `options_for`
abbrev pub options_for : ProfileRegistry → ProfileKind → Option Dict
options_for r kind = lookup same_kind kind r.options

pub data SetError : Type 0 where
  invalid : OptionError → SetError
  not_persisted : Bytes → SetError

-- `persist_options`, if there is a path.
abbrev pub persisted :
    Result (Unit {0}) Bytes → ProfileRegistry → Result (Unit {0}) SetError × ProfileRegistry
persisted write r =
    if r.has_path
    then elim write [
      | ok _ ↦ (ok tt, record r { file = some r.options })
      | err e ↦ (err (not_persisted e), r)
    ]
    else (ok tt, r)

abbrev pub set_checked :
    Result (Unit {0}) OptionError
    → Result (Unit {0}) Bytes
    → ProfileKind
    → Dict
    → ProfileRegistry
    → Result (Unit {0}) SetError × ProfileRegistry
set_checked (err e) write kind options r = (err (invalid e), r)
set_checked (ok _) write kind options r =
    persisted write (record r { options = insert same_kind kind_before kind options r.options })

-- `set_options`; `write` is what the writing of the file answers.
unfoldable pub set_options :
    Result (Unit {0}) Bytes
    → ProfileKind
    → Dict
    → ProfileRegistry
    → Result (Unit {0}) SetError × ProfileRegistry
set_options write kind options r = set_checked (validate kind options) write kind options r

-- `unwrap_or_default`
abbrev pub or_empty : Option Dict → Dict
or_empty none = []
or_empty (some options) = options

-- `resolve_options`
unfoldable pub resolve_options : ProfileRegistry → Option ProfileKind → Dict → Dict
resolve_options r none button_options = []
resolve_options r (some profile) button_options =
    merge beq text_before (or_empty (options_for r profile)) button_options
