-- ===== src/Daemon/Store/Forgotten.antt =====
-- scanbus-daemon/src/store.rs: a pairing whose removal could not be written.
use scanbus_service.Common.{◌≡◌, refl, none, some, Bytes}
use scanbus_service.Common.Result.{Result, ok, err}
use scanbus_service.Core.Id.{ScannerId}
use scanbus_service.Common.Maps.{remove, lookup-remove_self}
use scanbus_service.Daemon.Store.{
  StoreError, PersistedStore, PersistedScanner, Writing, JsonPairingStore, find_scanner,
  with_scanners, replaced, flush_locked, forget,
}

abbrev pub removed : ScannerId → JsonPairingStore → JsonPairingStore
removed id s = with_scanners (remove id.value s.state.scanners) s

module _ (to_vec : PersistedStore → Result Bytes Bytes) where
  forget_failed :
      (w : Writing) (id : ScannerId) (s : JsonPairingStore) (entry : PersistedScanner)
      (e : StoreError)
      → find_scanner id s ≡ some entry
      → replaced to_vec w (removed id s).state ≡ err e
      → forget to_vec w id s ≡ (err e, removed id s)
  unfolding forget flush_locked
  forget_failed w id s entry e found failed = rw (forget, found, flush_locked, failed) refl

  forget_missing :
      (w : Writing) (id : ScannerId) (s : JsonPairingStore)
      → find_scanner id s ≡ none
      → forget to_vec w id s ≡ (ok tt, s)
  unfolding forget
  forget_missing w id s absent = rw (forget, absent) refl

  -- If the file cannot be replaced when a paired scanner is forgotten, `forget` reports the error, and
  -- a second call reports success, whatever the file system would answer by then, and leaves the file
  -- as it was before the first.
  pub forget-forget :
      (w v : Writing) (id : ScannerId) (s : JsonPairingStore) (entry : PersistedScanner)
      (e : StoreError)
      → find_scanner id s ≡ some entry
      → replaced to_vec w (removed id s).state ≡ err e
      → ((forget to_vec w id s).0 ≡ err e)
        × ((forget to_vec v id (forget to_vec w id s).1).0 ≡ ok tt)
        × ((forget to_vec v id (forget to_vec w id s).1).1.file ≡ s.file)
  forget-forget w v id s entry e found failed =
      let again =
        forget_missing v id (removed id s) (lookup-remove_self id.value s.state.scanners) in
      rw (forget_failed w id s entry e found failed, again) (refl, refl, refl)
