-- ===== src/Daemon/Scanners.antt =====
-- scanbus-daemon/src/scanners.rs: `ScannerRegistry`, which scanner objects exist and why. A call holds
-- the one lock from its start to its end, so it is a function of the registry; what zbus answers is an
-- argument. A backend is its id, and a scanner's object is what its `Scanner1` holds.
pub mod Listening
pub mod Lifetime
pub mod Restore
pub mod Calls
pub mod Index
pub mod Sound
pub mod Steady
pub mod Run
pub mod Sessions
pub mod Takeover
pub mod Race
pub mod Restored
use scanbus_service.Common.{
  ℕ, zero, suc, ◌+◌, ◌-◌, ltb, Bool, true, false, not, ◌&&◌, ◌||◌, Option, none, some, List, [],
  ◌∷◌, ◌++◌, Bytes, codes, beq, drop, map, ◌==◌, if◌then◌else◌,
}
use scanbus_service.Common.Maps.{lookup, insert, remove, text_before}
use scanbus_service.Common.Result.{Result, ok, err, ◌>>=◌, ok_or, map_err}
use scanbus_service.Core.Id.{ScannerId}
use scanbus_service.Core.Model.{
  ButtonInfo, Capabilities, ScannerInfo, button_count, from_capabilities, supported_profiles,
}
use scanbus_service.Core.PairingState.{PairingState}
use scanbus_service.Core.Path as ObjectPath
use scanbus_service.Core.Profile
use scanbus_service.Core.Profile.{ProfileKind}
use scanbus_service.Core.Status
use scanbus_service.Core.Status.{Status}
use scanbus_service.Daemon.Address.{physical_address}
use scanbus_service.Daemon.Objects.{
  Answer, Error, not_exported, properties_changed, Zbus, Tree, add, interface, remove_object,
  remove_subtree,
}

pub data Origin : Type 0 where
  discovered persistent : Origin

-- A listener's `JoinHandle`, by whether the task is still running.
pub data Task : Type 0 where
  running finished : Task

pub record Entry : Type 0 where
  pub info : ScannerInfo
  pub origin : Origin
  pub backend : Bytes
  pub listener : Option Task
  pub rank : ℕ
  pub address : Bytes
  pub discovered : Bool

-- What the object of a scanner holds: the machine's scanner and state, and `Connected`.
pub record Scanner1 : Type 0 where
  pub info : ScannerInfo
  pub pairing : PairingState
  pub paired : Bool
  pub connected : Bool

-- The map, the index of the addresses, the tree of objects, what the exported scanners hold, and
-- what the store was asked to save of `Connected`, the last call first.
pub record Registry : Type 0 where
  pub entries : List (Bytes × Entry)
  pub owners : List (Bytes × ScannerId)
  pub tree : Tree
  pub exported : List (Bytes × Scanner1)
  pub saved : List (ScannerId × Bool)

-- What the standard library and the derived `==` compute: `trim` and `to_lowercase` of an address,
-- and the equality of two capabilities.
pub record Std : Type 0 where
  pub lowered : Bytes → Bytes
  pub same_capabilities : Capabilities → Capabilities → Bool

-- An error of a call, or a panic of the code.
pub data Fault : Type 0 where
  failed : Error → Fault
  panicked : Fault

abbrev pub scanner_interface : Bytes
scanner_interface = codes "org.scanbus.Scanner1"

abbrev pub button_interface : Bytes
button_interface = codes "org.scanbus.Button1"

abbrev pub find_entry : ScannerId → Registry → Option Entry
find_entry id r = lookup beq id.value r.entries

abbrev pub put_entry : ScannerId → Entry → Registry → Registry
put_entry id entry r = record r { entries = insert beq text_before id.value entry r.entries }

abbrev pub put_exported : ScannerId → Scanner1 → Registry → Registry
put_exported id object r = record r { exported = insert beq text_before id.value object r.exported }

-- `objects.interface::<Scanner1>(&path)`, and what the object holds
unfoldable pub scanner_at : Zbus → ScannerId → Registry → Result Scanner1 Error
scanner_at z id r = interface z (ObjectPath.scanner id) scanner_interface >>= λ _.
    ok_or (lookup beq id.value r.exported) (not_exported (ObjectPath.scanner id))

abbrev pub same_status : Status → Status → Bool
same_status s t = beq (Status.as_str s) (Status.as_str t)

-- The properties that `update` announces, in its order.
abbrev when_changed : Bool → List Bytes → List Bytes
when_changed true names = []
when_changed false names = names

abbrev same_profiles : List ProfileKind → List ProfileKind → Bool
same_profiles [] [] = true
same_profiles (k ∷ ks) (l ∷ ls) = beq (Profile.as_str k) (Profile.as_str l) && same_profiles ks ls
same_profiles _ _ = false

module _ (std : Std) where
  -- The derived `==` of `ScannerInfo`.
  unfoldable pub same_info : ScannerInfo → ScannerInfo → Bool
  same_info a b =
      beq a.id.value b.id.value
      && beq a.name b.name
      && beq a.backend b.backend
      && beq a.address b.address
      && std.same_capabilities a.capabilities b.capabilities
      && same_status a.status b.status

  unfoldable pub changed : ScannerInfo → ScannerInfo → List Bytes
  changed previous info =
      when_changed (beq previous.name info.name) (codes "Name" ∷ [])
      ++ when_changed (beq previous.backend info.backend) (codes "Backend" ∷ [])
      ++ when_changed (beq previous.address info.address) (codes "Address" ∷ [])
      ++ when_changed (std.same_capabilities previous.capabilities info.capabilities) (
          codes "Capabilities"
          ∷ when_changed (same_profiles (supported_profiles previous) (supported_profiles info))
              (codes "SupportedProfiles" ∷ []))
      ++ when_changed (same_status previous.status info.status) (codes "Status" ∷ [])

  -- Signals, up to the first that is not emitted.
  unfoldable pub emit_all : Zbus → Bytes → List Bytes → Answer
  emit_all z path [] = ok tt
  emit_all z path (name ∷ names) = z.emit path name >>= λ _. emit_all z path names

  -- `scanner::update`: the object has the new data whether or not it can be announced.
  unfoldable pub update : Zbus → ScannerInfo → Scanner1 → Answer × Scanner1
  update z info object = (
    emit_all z (ObjectPath.scanner info.id) (changed object.info info),
    record object { info = info },
  )

  abbrev pub address_of : ScannerInfo → Bytes
  address_of info = physical_address (std.lowered info.address)

-- The loop of `add_buttons`, which the first refusal ends.
unfoldable pub add_each : Zbus → ScannerId → List ButtonInfo → Tree → Result (Unit {0}) Error × Tree
add_each z id [] tree = (ok tt, tree)
add_each z id (button ∷ buttons) tree =
    let added = add z (ObjectPath.button id button.index) button_interface tree in
    let rest = add_each z id buttons added.1 in
    elim (added.0) [ err e ↦ (err e, added.1) | ok _ ↦ rest ]

-- `add_buttons`: the keys from `exported` on
abbrev pub add_buttons : Zbus → ScannerInfo → ℕ → Tree → Result (Unit {0}) Error × Tree
add_buttons z info exported tree =
    add_each z info.id (drop exported (from_capabilities info.capabilities)) tree

-- `remove_buttons`: the keys from `from` on, `count` of them, the last one first
unfoldable pub remove_buttons : Zbus → ScannerId → ℕ → ℕ → Tree → Tree
remove_buttons z id from zero tree = tree
remove_buttons z id from (suc count) tree =
    remove_buttons z id from count (remove_object z (ObjectPath.button id (from + count)) tree).1

-- `sync_buttons`
unfoldable pub sync_buttons : Zbus → ℕ → ScannerInfo → Registry → Registry
sync_buttons z previous info r =
    let desired = button_count info.capabilities in
    if desired == previous
    then r
    else if ltb previous desired
    then record r { tree = (add_buttons z info previous r.tree).1 }
    else record r { tree = remove_buttons z info.id desired (previous - desired) r.tree }

-- A new machine, after `restore_paired` if the scanner is paired.
abbrev pub new_scanner1 : ScannerInfo → Bool → Scanner1
new_scanner1 info paired = record {
  info = info;
  pairing = if paired then PairingState.done else PairingState.idle;
  paired = paired;
  connected = false;
}

-- The end of `publish`, after the keys were exported or not.
abbrev pub tracked :
    Zbus
    → ScannerInfo
    → Entry
    → Result (Unit {0}) Error × Tree
    → Registry
    → Result (Unit {0}) Fault × Registry
tracked z info entry (err e, tree) r =
    (err (failed e), record r { tree = (remove_subtree z (ObjectPath.scanner info.id) tree).1 })
tracked z info entry (ok _, tree) r = (
  ok tt,
  record r {
    tree = tree;
    owners = insert beq text_before entry.address info.id r.owners;
    entries = insert beq text_before info.id.value entry r.entries;
  },
)

abbrev pub with_keys :
    Zbus
    → ScannerInfo
    → Entry
    → Bool
    → Result (Unit {0}) Error × Tree
    → Registry
    → Result (Unit {0}) Fault × Registry
with_keys z info entry paired (err e, tree) r = (err (failed e), record r { tree = tree })
with_keys z info entry paired (ok _, tree) r =
    tracked z info entry (add_buttons z info 0 tree)
      (put_exported info.id (new_scanner1 info paired) r)

-- `publish`
unfoldable pub publish :
    Zbus → ScannerInfo → Entry → Bool → Registry → Result (Unit {0}) Fault × Registry
publish z info entry paired r =
    with_keys z info entry paired (add z (ObjectPath.scanner info.id) scanner_interface r.tree) r

-- The address moves in the index with its scanner.
abbrev pub moved : Bytes → Bytes → ScannerId → Registry → Registry
moved from to id r =
    if beq from to
    then r
    else record r { owners = insert beq text_before to id (remove from r.owners) }

module _ (std : Std) where
  -- The end of `update_existing`, after the object was updated and its changes announced or not.
  abbrev pub settled :
      Zbus → ScannerInfo → Bytes → Entry → Answer → Registry → Result (Unit {0}) Fault × Registry
  settled z info address entry (err source) r =
      (err (failed (properties_changed (ObjectPath.scanner info.id) source)), r)
  settled z info address entry (ok _) r = (
    ok tt,
    put_entry info.id (record entry { discovered = true; address = address; info = info })
        (moved entry.address address info.id
          (sync_buttons z (button_count entry.info.capabilities) info r)),
  )

  abbrev pub updated :
      Zbus
      → ScannerInfo
      → Bytes
      → Entry
      → Result Scanner1 Error
      → Registry
      → Result (Unit {0}) Fault × Registry
  updated z info address entry (err e) r = (err (failed e), r)
  updated z info address entry (ok object) r =
      let (announced, object) = update std z info object in
      settled z info address entry announced (put_exported info.id object r)

  -- `update_existing`
  unfoldable pub update_existing :
      Zbus → ScannerInfo → Bytes → Entry → Registry → Result (Unit {0}) Fault × Registry
  update_existing z info address entry r =
      let r = put_entry info.id (record entry { discovered = true }) r in
      if same_info std entry.info info
      then (ok tt, r)
      else updated z info address entry (scanner_at z info.id r) r

  -- The scanner that a probe of the backend of that rank sees for the first time.
  abbrev pub sighted : ℕ → Bytes → ScannerInfo → Entry
  sighted rank backend info = record {
    info = info;
    origin = Origin.discovered;
    backend = backend;
    listener = none;
    rank = rank;
    address = address_of std info;
    discovered = true;
  }

  -- `observe`
  unfoldable pub observe :
      Zbus → ℕ → Bytes → ScannerInfo → Registry → Result (Unit {0}) Fault × Registry
  observe z rank backend info r = elim (find_entry info.id r) [
    | some entry ↦ update_existing z info (address_of std info) entry r
    | none ↦ elim (lookup beq (address_of std info) r.owners) [
      | none ↦ publish z info (sighted rank backend info) false r
      | some owner ↦ elim (find_entry owner r) [
        | some winner ↦ (ok tt, r)
        | none ↦ (err panicked, r)
      ]
    ]
  ]
