-- ===== src/Daemon/Store/Memory.antt =====
-- scanbus-daemon/src/store.rs: `MemoryPairingStore`, and what it shares with `JsonPairingStore`.
use scanbus_service.Common.{
  ◌≡◌, refl, ap, ◌∙◌, Bool, true, false, Option, none, some, List, [], ◌∷◌, map, Bytes, beq,
  Bool-cases, Option-cases, inl, inr, arith,
}
use scanbus_service.Common.Result.{Result, ok, Result-cases}
use scanbus_service.Core.Id.{ScannerId}
use scanbus_service.Core.Model.{ScannerInfo}
use scanbus_service.Daemon.Profiles.{lookup, insert, text_before}
use scanbus_service.Daemon.Store.{
  StoreError, PersistedScanner, PersistedStore, Restorable, Writing, JsonPairingStore, find_scanner,
  put_scanner, with_scanners, recorded, remove, replaced, flush_locked,
}
use scanbus_service.Daemon.Store as Json

pub record MemoryPairingStore : Type 0 where
  pub scanners : List (Bytes × ScannerInfo)

-- `MemoryPairingStore::paired`
abbrev pub paired : MemoryPairingStore → List ScannerInfo
paired m = map (λ entry. entry.1) m.scanners

-- `MemoryPairingStore::contains`
abbrev pub contains : ScannerId → MemoryPairingStore → Bool
contains id m = elim (lookup beq id.value m.scanners) [ none ↦ false | some _ ↦ true ]

unfoldable pub save_paired :
    ScannerInfo → MemoryPairingStore → Result (Unit {0}) StoreError × MemoryPairingStore
save_paired scanner m =
    (ok tt, record { scanners = insert beq text_before scanner.id.value scanner m.scanners })

unfoldable pub forget :
    ScannerId → MemoryPairingStore → Result (Unit {0}) StoreError × MemoryPairingStore
forget id m = (ok tt, record { scanners = remove id.value m.scanners })

-- `MemoryPairingStore::restorable`
abbrev pub restorable : MemoryPairingStore → List Restorable
restorable m =
    map (λ entry. record { scanner = entry.1; connected = false; buttons = [] }) m.scanners

-- What a store on disk has in memory, without the settings of the scanners.
abbrev pub scanners_of : List (Bytes × PersistedScanner) → List (Bytes × ScannerInfo)
scanners_of entries = map (λ entry. (entry.0, entry.1.scanner)) entries

abbrev pub in_memory : JsonPairingStore → MemoryPairingStore
in_memory s = record { scanners = scanners_of s.state.scanners }

scanners_of-insert :
    (key : Bytes) (entry : PersistedScanner) (entries : List (Bytes × PersistedScanner))
    → scanners_of (insert beq text_before key entry entries)
      ≡ insert beq text_before key entry.scanner (scanners_of entries)
unfolding insert
scanners_of-insert key entry [] = refl
scanners_of-insert key entry ((k, e) ∷ entries) = elim (Bool-cases (beq key k)) [
  | inl here ↦ rw (here) refl
  | inr other ↦ elim (Bool-cases (text_before key k)) [
    | inl front ↦ rw (other, front) refl
    | inr back ↦ rw (other, back, scanners_of-insert key entry entries) refl
  ]
]

scanners_of-remove :
    (key : Bytes) (entries : List (Bytes × PersistedScanner))
    → scanners_of (remove key entries) ≡ remove key (scanners_of entries)
unfolding remove
scanners_of-remove key [] = refl
scanners_of-remove key ((k, e) ∷ entries) = elim (Bool-cases (beq key k)) [
  | inl here ↦ rw (here, scanners_of-remove key entries) refl
  | inr other ↦ rw (other, scanners_of-remove key entries) refl
]

recorded-scanner :
    (scanner : ScannerInfo) (found : Option PersistedScanner)
    → (recorded scanner found).scanner ≡ scanner
recorded-scanner scanner none = refl
recorded-scanner scanner (some entry) = refl

remove_missing :
    {V : Type 0} (key : Bytes) (entries : List (Bytes × V))
    → lookup beq key entries ≡ none
    → remove key entries ≡ entries
unfolding lookup remove
remove_missing key [] h = refl
remove_missing key ((k, v) ∷ entries) h = elim (Bool-cases (beq key k)) [
  | inl here ↦ absurd (ground arith)
  | inr other ↦
      let absent : lookup beq key entries ≡ none = ground arith in
      rw (other, remove_missing key entries absent) refl
]

-- The two calls that both stores implement.
pub data Change : Type 0 where
  pairing : ScannerInfo → Change
  forgetting : ScannerId → Change

abbrev pub remembered :
    Change → MemoryPairingStore → Result (Unit {0}) StoreError × MemoryPairingStore
remembered (pairing scanner) m = save_paired scanner m
remembered (forgetting id) m = forget id m

abbrev pub all_remembered : List (Writing × Change) → MemoryPairingStore → MemoryPairingStore
all_remembered [] m = m
all_remembered ((w, c) ∷ changes) m = all_remembered changes (remembered c m).1

module _ (to_vec : PersistedStore → Result Bytes Bytes) where
  flush_locked_state :
      (w : Writing) (s : JsonPairingStore) → (flush_locked to_vec w s).1.state ≡ s.state
  unfolding flush_locked
  flush_locked_state w s = elim (Result-cases (replaced to_vec w s.state)) [
    | inl (bytes, written) ↦ rw (flush_locked, written) refl
    | inr (e, failed) ↦ rw (flush_locked, failed) refl
  ]

  in_memory-save_paired :
      (w : Writing) (scanner : ScannerInfo) (s : JsonPairingStore)
      → in_memory (Json.save_paired to_vec w scanner s).1 ≡ (save_paired scanner (in_memory s)).1
  unfolding save_paired Json.save_paired
  in_memory-save_paired w scanner s =
      let found = find_scanner scanner.id s in
      rw
        (
          flush_locked_state w (put_scanner scanner.id (recorded scanner found) s),
          scanners_of-insert scanner.id.value (recorded scanner found) s.state.scanners,
          recorded-scanner scanner found,
        )
        refl

  in_memory-forget :
      (w : Writing) (id : ScannerId) (s : JsonPairingStore)
      → in_memory (Json.forget to_vec w id s).1 ≡ (forget id (in_memory s)).1
  unfolding forget Json.forget
  in_memory-forget w id s = elim (Option-cases (find_scanner id s)) [
    | inl absent ↦
        rw
          (
            Json.forget,
            absent,
            ← scanners_of-remove id.value s.state.scanners,
            remove_missing id.value s.state.scanners absent,
          )
          refl
    | inr (entry, found) ↦
        rw
          (
            Json.forget,
            found,
            flush_locked_state w (with_scanners (remove id.value s.state.scanners) s),
            scanners_of-remove id.value s.state.scanners,
          )
          refl
  ]

  abbrev pub written :
      Writing → Change → JsonPairingStore → Result (Unit {0}) StoreError × JsonPairingStore
  written w (pairing scanner) s = Json.save_paired to_vec w scanner s
  written w (forgetting id) s = Json.forget to_vec w id s

  abbrev pub all_written : List (Writing × Change) → JsonPairingStore → JsonPairingStore
  all_written [] s = s
  all_written ((w, c) ∷ changes) s = all_written changes (written w c s).1

  in_memory-written :
      (w : Writing) (c : Change) (s : JsonPairingStore)
      → in_memory (written w c s).1 ≡ (remembered c (in_memory s)).1
  in_memory-written w (pairing scanner) s = in_memory-save_paired w scanner s
  in_memory-written w (forgetting id) s = in_memory-forget w id s

  -- Whatever scanners are paired and forgotten, and whatever the file system answers, the store on
  -- disk has the scanners in memory that `MemoryPairingStore` has after the same calls.
  pub in_memory-all_written :
      (changes : List (Writing × Change)) (s : JsonPairingStore)
      → in_memory (all_written changes s) ≡ all_remembered changes (in_memory s)
  in_memory-all_written [] s = refl
  in_memory-all_written ((w, c) ∷ changes) s =
      in_memory-all_written changes (written w c s).1
      ∙ ap (λ m. all_remembered changes m) (in_memory-written w c s)
