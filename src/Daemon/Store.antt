-- ===== src/Daemon/Store.antt =====
-- scanbus-daemon/src/store.rs: `JsonPairingStore`. The file at its path is the bytes it holds, if it
-- is there; what the calls of the file system answer is an argument of what makes them, and
-- `to_vec_pretty` and `from_slice` are parameters. The temporary file is left out: it is truncated
-- before it is written, and no one reads it under its own name.
pub mod Reopened
pub mod Forgotten
pub mod Memory
use scanbus_service.Common.{
  ℕ, Bool, true, false, not, ◌||◌, ◌&&◌, Option, none, some, List, [], ◌∷◌, map, Bytes, beq, ltb,
  ◌==◌, filter, if◌then◌else◌,
}
use scanbus_service.Common.Result.{Result, ok, err, ◌>>=◌, map_err}
use scanbus_service.Core.Id.{ScannerId}
use scanbus_service.Core.Model.{ButtonInfo, ScannerInfo}
use scanbus_service.Core.Profile.{ProfileKind}
unfoldable pub use scanbus_service.Common.Maps.{remove}
use scanbus_service.Common.Maps.{lookup, insert, text_before}

-- What an operation of the file system answers: done, or the text of its error.
abbrev pub Answer : Type 0
Answer = Result (Unit {0}) Bytes

pub data StoreError : Type 0 where
  no_parent : StoreError
  cannot_create_dir cannot_set_mode cannot_serialize cannot_open cannot_write cannot_sync
        cannot_replace cannot_open_dir cannot_sync_dir :
      Bytes → StoreError
  cannot_read cannot_parse : Bytes → StoreError
  newer_version unsupported_version : ℕ → StoreError

pub record PersistedScanner : Type 0 where
  pub scanner : ScannerInfo
  pub default_profile : Option ProfileKind
  pub buttons : List (ℕ × ButtonInfo)
  pub connected : Bool

-- `PersistedScanner::new`
abbrev pub new_scanner : ScannerInfo → PersistedScanner
new_scanner scanner = record {
  scanner = scanner;
  default_profile = none;
  buttons = [];
  connected = false;
}

pub record PersistedStore : Type 0 where
  pub version : ℕ
  pub scanners : List (Bytes × PersistedScanner)

abbrev pub store_version : ℕ
store_version = 1

-- `PersistedStore::default`
abbrev pub empty_store : PersistedStore
empty_store = record { version = store_version; scanners = [] }

-- What the calls of one `persist` answer, in their order.
pub record Writing : Type 0 where
  pub has_parent : Bool
  pub dir_exists : Bool
  pub create_dir : Answer
  pub set_mode : Answer
  pub open_tmp : Answer
  pub write_all : Answer
  pub sync_tmp : Answer
  pub rename : Answer
  pub open_dir : Answer
  pub sync_dir : Answer

-- `ensure_config_dir`
abbrev pub ensure_config_dir : Writing → Result (Unit {0}) StoreError
ensure_config_dir w =
    (if w.dir_exists then ok tt else map_err cannot_create_dir w.create_dir) >>= λ _.
    map_err cannot_set_mode w.set_mode

-- The path's store: what it has in memory, and the file.
pub record JsonPairingStore : Type 0 where
  pub state : PersistedStore
  pub file : Option Bytes

-- `persist` after the renaming.
abbrev pub synced : Writing → Result (Unit {0}) StoreError
synced w = map_err cannot_open_dir w.open_dir >>= λ _. map_err cannot_sync_dir w.sync_dir

-- In `save_paired`: `and_modify` on an entry that is there, `or_insert_with` on none.
abbrev pub recorded : ScannerInfo → Option PersistedScanner → PersistedScanner
recorded scanner none = new_scanner scanner
recorded scanner (some entry) = record entry { scanner = scanner }

abbrev pub with_scanners : List (Bytes × PersistedScanner) → JsonPairingStore → JsonPairingStore
with_scanners scanners s = record s { state = record s.state { scanners = scanners } }

abbrev pub find_scanner : ScannerId → JsonPairingStore → Option PersistedScanner
find_scanner id s = lookup beq id.value s.state.scanners

-- `*scanners.get_mut(id) = entry`
abbrev pub put_scanner : ScannerId → PersistedScanner → JsonPairingStore → JsonPairingStore
put_scanner id entry s = with_scanners (insert beq text_before id.value entry s.state.scanners) s

abbrev pub with_button : ButtonInfo → PersistedScanner → PersistedScanner
with_button button entry = record entry {
  buttons = insert (λ i j. i == j) ltb button.index button entry.buttons;
}

abbrev pub differ : Bool → Bool → Bool
differ a b = if a then not b else b

module _ (to_vec : PersistedStore → Result Bytes Bytes) where
  -- `persist` up to the renaming, with the bytes that are then at the path.
  unfoldable pub replaced : Writing → PersistedStore → Result Bytes StoreError
  replaced w state =
      (if w.has_parent then ensure_config_dir w else err no_parent)
      >>= (λ _. map_err cannot_serialize (to_vec state))
      >>= λ payload.
          map_err cannot_open w.open_tmp
          >>= (λ _. map_err cannot_write w.write_all)
          >>= (λ _. map_err cannot_sync w.sync_tmp)
          >>= (λ _. map_err cannot_replace w.rename)
          >>= λ _. ok payload

  -- `flush_locked`
  unfoldable pub flush_locked :
      Writing → JsonPairingStore → Result (Unit {0}) StoreError × JsonPairingStore
  flush_locked w s = elim (replaced w s.state) [
    | err e ↦ (err e, s)
    | ok payload ↦ (synced w, record s { file = some payload })
  ]

  unfoldable pub save_paired :
      Writing → ScannerInfo → JsonPairingStore → Result (Unit {0}) StoreError × JsonPairingStore
  save_paired w scanner s =
      flush_locked w (put_scanner scanner.id (recorded scanner (find_scanner scanner.id s)) s)

  unfoldable pub forget :
      Writing → ScannerId → JsonPairingStore → Result (Unit {0}) StoreError × JsonPairingStore
  forget w id s = elim (find_scanner id s) [
    | none ↦ (ok tt, s)
    | some _ ↦ flush_locked w (with_scanners (remove id.value s.state.scanners) s)
  ]

  unfoldable pub save_default_profile :
      Writing
      → ScannerId
      → Option ProfileKind
      → JsonPairingStore
      → Result (Unit {0}) StoreError × JsonPairingStore
  save_default_profile w id profile s = elim (find_scanner id s) [
    | none ↦ (ok tt, s)
    | some entry ↦ flush_locked w (put_scanner id (record entry { default_profile = profile }) s)
  ]

  unfoldable pub save_button :
      Writing
      → ScannerId
      → ButtonInfo
      → JsonPairingStore
      → Result (Unit {0}) StoreError × JsonPairingStore
  save_button w id button s = elim (find_scanner id s) [
    | none ↦ (ok tt, s)
    | some entry ↦ flush_locked w (put_scanner id (with_button button entry) s)
  ]

  unfoldable pub save_connected :
      Writing
      → ScannerId
      → Bool
      → JsonPairingStore
      → Result (Unit {0}) StoreError × JsonPairingStore
  save_connected w id connected s = elim (find_scanner id s) [
    | none ↦ (ok tt, s)
    | some entry ↦
        if differ entry.connected connected
        then flush_locked w (put_scanner id (record entry { connected = connected }) s)
        else (ok tt, s)
  ]

pub record Restorable : Type 0 where
  pub scanner : ScannerInfo
  pub connected : Bool
  pub buttons : List ButtonInfo

-- `restorable`
abbrev pub restorable : JsonPairingStore → List Restorable
restorable s =
    map
      (λ entry. record {
        scanner = entry.1.scanner;
        connected = entry.1.connected;
        buttons = map (λ button. button.1) entry.1.buttons;
      })
      s.state.scanners

module _ (from_slice : Bytes → Result PersistedStore Bytes) where
  abbrev pub supported_version : PersistedStore → Result PersistedStore StoreError
  supported_version loaded =
      if ltb store_version loaded.version
      then err (newer_version loaded.version)
      else if loaded.version == store_version
      then ok loaded
      else err (unsupported_version loaded.version)

  -- `load`; `read` is what `fs::read` answers.
  unfoldable pub load : Answer → Option Bytes → Result PersistedStore StoreError
  load read none = ok empty_store
  load read (some bytes) =
      map_err cannot_read read
      >>= (λ _. map_err cannot_parse (from_slice bytes))
      >>= supported_version

  -- `rename_aside`: what is at the path afterwards.
  abbrev pub rename_aside : Answer → Option Bytes → Option Bytes
  rename_aside (ok _) file = none
  rename_aside (err _) file = file

  -- `load_or_reset`: the state, and what is at the path.
  abbrev pub load_or_reset : Answer → Answer → Option Bytes → PersistedStore × Option Bytes
  load_or_reset read renamed file = elim (load read file) [
    | ok state ↦ (state, file)
    | err _ ↦ (empty_store, rename_aside renamed file)
  ]

  -- `JsonPairingStore::with_path`
  unfoldable pub with_path : Answer → Answer → Option Bytes → JsonPairingStore
  with_path read renamed file =
      let (state, file) = load_or_reset read renamed file in record { state = state; file = file }
