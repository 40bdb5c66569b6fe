-- ===== src/Core/Model.antt =====
-- scanbus-core/src/model: `ScannerInfo` (mod.rs), `Capabilities` (capabilities.rs) and `ButtonInfo`
-- (button.rs).
use scanbus_service.Common.{
  ℕ, zero, suc, Bool, Option, none, some, List, [], ◌∷◌, Bytes, beq, any, filter,
}
use scanbus_service.Core.Id.{ScannerId}
use scanbus_service.Core.Profile
use scanbus_service.Core.Profile.{ProfileKind, supported}
use scanbus_service.Core.Status.{Status}
use scanbus_service.Core.Value.{Dict}

pub data ColorMode : Type 0 where
  color gray bw : ColorMode

pub data Source : Type 0 where
  flatbed adf : Source

pub record ButtonsCapability : Type 0 where
  pub count : ℕ
  pub label_configurable : Bool
  pub labels : List Bytes

pub record Capabilities : Type 0 where
  pub resolutions : List ℕ
  pub color_modes : List ColorMode
  pub sources : List Source
  pub duplex : Bool
  pub buttons : ButtonsCapability
  pub profiles : List ProfileKind
  pub extra : Dict

-- `Capabilities::button_count`
abbrev pub button_count : Capabilities → ℕ
button_count capabilities = capabilities.buttons.count

pub record ButtonInfo : Type 0 where
  pub index : ℕ
  pub device_label : Bytes
  pub label_configurable : Bool
  pub label : Option Bytes
  pub profile : Option ProfileKind
  pub profile_options : Dict

-- `ButtonInfo::new`
abbrev pub new_button : ℕ → Bytes → Bool → ButtonInfo
new_button index device_label label_configurable = record {
  index = index;
  device_label = device_label;
  label_configurable = label_configurable;
  label = none;
  profile = none;
  profile_options = [];
}

-- The keys from `index` on, `count` of them, with the labels that are left.
abbrev pub buttons_from : ℕ → ℕ → Bool → List Bytes → List ButtonInfo
buttons_from index zero configurable labels = []
buttons_from index (suc count) configurable [] =
    new_button index [] configurable ∷ buttons_from (suc index) count configurable []
buttons_from index (suc count) configurable (label ∷ labels) =
    new_button index label configurable ∷ buttons_from (suc index) count configurable labels

-- `ButtonInfo::from_capabilities`
abbrev pub from_capabilities : Capabilities → List ButtonInfo
from_capabilities capabilities =
    buttons_from 0 (button_count capabilities) capabilities.buttons.label_configurable
      capabilities.buttons.labels

-- `ButtonInfo::effective_label`
abbrev pub effective_label : ButtonInfo → Bytes
effective_label button = elim button.label [ none ↦ button.device_label | some label ↦ label ]

pub record ScannerInfo : Type 0 where
  pub id : ScannerId
  pub name : Bytes
  pub backend : Bytes
  pub address : Bytes
  pub capabilities : Capabilities
  pub status : Status

abbrev same_kind : ProfileKind → ProfileKind → Bool
same_kind k l = beq (Profile.as_str k) (Profile.as_str l)

-- `ScannerInfo::supported_profiles`
unfoldable pub supported_profiles : ScannerInfo → List ProfileKind
supported_profiles info = elim info.capabilities.profiles [
  | [] ↦ supported
  | kind ∷ kinds ↦ filter (λ k. any (same_kind k) (kind ∷ kinds)) supported
]
