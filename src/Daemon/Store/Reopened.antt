-- ===== src/Daemon/Store/Reopened.antt =====
-- scanbus-daemon/src/store.rs: what a daemon finds that opens the store again.
use mathlib.Core.Path.{subst}
use scanbus_service.Common.{
  ◌≡◌, refl, ap, ◌∙◌, ◌⊎◌, inl, inr, Bool, Option, none, some, Bytes, arith, Bool-cases,
  Option-cases, if◌then◌else◌,
}
use scanbus_service.Common.Result.{
  Result, ok, err, ◌>>=◌, map_err, >>=-eq-ok, ok-injective, Result-cases,
}
use scanbus_service.Core.Id.{ScannerId}
use scanbus_service.Core.Model.{ButtonInfo, ScannerInfo}
use scanbus_service.Core.Profile.{ProfileKind}
use scanbus_service.Daemon.Store.{
  load_or_reset, Answer, StoreError, no_parent, cannot_serialize, cannot_open, cannot_write,
  cannot_sync, cannot_replace, ensure_config_dir, PersistedStore, store_version, empty_store,
  Writing, JsonPairingStore, synced, find_scanner, put_scanner, with_button, differ, replaced,
  flush_locked, save_paired, forget, save_default_profile, save_button, save_connected, load,
  with_path,
}

-- A call of the trait that changes the store.
pub data Call : Type 0 where
  paired : ScannerInfo → Call
  forgotten : ScannerId → Call
  profiled : ScannerId → Option ProfileKind → Call
  assigned : ScannerId → ButtonInfo → Call
  connection : ScannerId → Bool → Call

module _ (to_vec : PersistedStore → Result Bytes Bytes) where
  abbrev pub call :
      Writing → Call → JsonPairingStore → Result (Unit {0}) StoreError × JsonPairingStore
  call w (paired scanner) s = save_paired to_vec w scanner s
  call w (forgotten id) s = forget to_vec w id s
  call w (profiled id profile) s = save_default_profile to_vec w id profile s
  call w (assigned id button) s = save_button to_vec w id button s
  call w (connection id connected) s = save_connected to_vec w id connected s

  -- From one store to another by calls that all succeed.
  pub data Calls : JsonPairingStore → JsonPairingStore → Type 0 where
    done : {s : JsonPairingStore} → Calls s s
    then_call :
        {s t u : JsonPairingStore} (w : Writing) (c : Call)
        → Calls s t
        → call w c t ≡ (ok tt, u)
        → Calls s u

  -- The file holds what is in memory; if there is none, nothing was ever stored.
  abbrev IsSaved : JsonPairingStore → Type 0
  IsSaved s =
      (s.state.version ≡ store_version)
      × (((s.file ≡ none) × (s.state ≡ empty_store))
          ⊎ ((bytes : Bytes) × (s.file ≡ some bytes) × (to_vec s.state ≡ ok bytes)))

  map_err_ok : {A E F : Type 0} (f : E → F) (r : Result A E) {a : A} → map_err f r ≡ ok a → r ≡ ok a
  map_err_ok f (ok b) h = ap ok (ok-injective h)
  map_err_ok f (err e) h = absurd (cc)

  replaced_ok :
      (w : Writing) (state : PersistedStore) (bytes : Bytes)
      → replaced to_vec w state ≡ ok bytes
      → to_vec state ≡ ok bytes
  unfolding replaced
  replaced_ok w state bytes h =
      let (payload, read, rest) =
        >>=-eq-ok
          ((if w.has_parent then ensure_config_dir w else err no_parent) >>= λ _.
            map_err cannot_serialize (to_vec state))
          _ h in
      let (_, _, serialized) =
        >>=-eq-ok (if w.has_parent then ensure_config_dir w else err no_parent) _ read in
      let (_, _, same) =
        >>=-eq-ok
          (map_err cannot_open w.open_tmp
            >>= (λ _. map_err cannot_write w.write_all)
            >>= (λ _. map_err cannot_sync w.sync_tmp)
            >>= λ _. map_err cannot_replace w.rename)
          _ rest in
      map_err_ok cannot_serialize (to_vec state) serialized ∙ ap ok (ok-injective same)

  flush_locked-IsSaved :
      (w : Writing) (s t : JsonPairingStore)
      → s.state.version ≡ store_version
      → flush_locked to_vec w s ≡ (ok tt, t)
      → IsSaved t
  unfolding flush_locked
  flush_locked-IsSaved w s t v h = elim (Result-cases (replaced to_vec w s.state)) [
    | inr (e, failed) ↦ absurd (ground arith)
    | inl (bytes, written) ↦
        let kept : (synced w, record s { file = some bytes }) ≡ (ok tt, t) =
          rw (written, flush_locked) at h in
        let same : record s { file = some bytes } ≡ t = ap (λ p. p.1) kept in
        subst IsSaved same (v, inr (bytes, refl, replaced_ok w s.state bytes written))
  ]

  unchanged-IsSaved :
      (s t : JsonPairingStore)
      → IsSaved s
      → ◌≡◌ {A = Result (Unit {0}) StoreError × JsonPairingStore} (ok tt, s) (ok tt, t)
      → IsSaved t
  unchanged-IsSaved s t k h = subst IsSaved (ap (λ p. p.1) h) k

  call-IsSaved :
      (w : Writing) (c : Call) (s t : JsonPairingStore)
      → IsSaved s
      → call w c s ≡ (ok tt, t)
      → IsSaved t
  unfolding save_paired forget save_default_profile save_button save_connected
  call-IsSaved w (paired scanner) s t (v, k) h = flush_locked-IsSaved w _ t v h
  call-IsSaved w (forgotten id) s t (v, k) h = elim (Option-cases (find_scanner id s)) [
    | inl absent ↦ unchanged-IsSaved s t (v, k) (rw (absent, forget) at h)
    | inr (entry, found) ↦ flush_locked-IsSaved w _ t v (rw (found, forget) at h)
  ]
  call-IsSaved w (profiled id profile) s t (v, k) h = elim (Option-cases (find_scanner id s)) [
    | inl absent ↦ unchanged-IsSaved s t (v, k) (rw (absent, save_default_profile) at h)
    | inr (entry, found) ↦
        flush_locked-IsSaved w (put_scanner id (record entry { default_profile = profile }) s) t v
          (rw (found, save_default_profile) at h)
  ]
  call-IsSaved w (assigned id button) s t (v, k) h = elim (Option-cases (find_scanner id s)) [
    | inl absent ↦ unchanged-IsSaved s t (v, k) (rw (absent, save_button) at h)
    | inr (entry, found) ↦
        flush_locked-IsSaved w (put_scanner id (with_button button entry) s) t v
          (rw (found, save_button) at h)
  ]
  call-IsSaved w (connection id connected) s t (v, k) h = elim (Option-cases (find_scanner id s)) [
    | inl absent ↦ unchanged-IsSaved s t (v, k) (rw (absent, save_connected) at h)
    | inr (entry, found) ↦ elim (Bool-cases (differ entry.connected connected)) [
      | inr same ↦ unchanged-IsSaved s t (v, k) (rw (found, same, save_connected) at h)
      | inl other ↦
          flush_locked-IsSaved w (put_scanner id (record entry { connected = connected }) s) t v
            (rw (found, other, save_connected) at h)
    ]
  ]

  Calls-IsSaved : {s t : JsonPairingStore} → Calls s t → IsSaved s → IsSaved t
  Calls-IsSaved done k = k
  Calls-IsSaved (then_call {t} {u} w c calls h) k = call-IsSaved w c t u (Calls-IsSaved calls k) h

  module _ (from_slice : Bytes → Result PersistedStore Bytes) where
    load_ok :
        (state : PersistedStore) (bytes : Bytes)
        → state.version ≡ store_version
        → from_slice bytes ≡ ok state
        → load from_slice (ok tt) (some bytes) ≡ ok state
    unfolding load
    load_ok state bytes version h = rw (h, version) refl

    with_path_ok :
        (renamed : Answer) (state : PersistedStore) (file : Option Bytes)
        → load from_slice (ok tt) file ≡ ok state
        → with_path from_slice (ok tt) renamed file ≡ record { state = state; file = file }
    unfolding with_path
    with_path_ok renamed state file h = rw (with_path, load_or_reset, h) refl

    -- From a path without a file, after any calls that all succeed, a daemon that opens the file
    -- again has the store that was left, if `from_slice` reads back what `to_vec_pretty` made of it.
    pub with_path_again :
        (read renamed : Answer) (s : JsonPairingStore)
        → Calls (with_path from_slice read renamed none) s
        → ((bytes : Bytes) → to_vec s.state ≡ ok bytes → from_slice bytes ≡ ok s.state)
        → with_path from_slice (ok tt) renamed s.file ≡ s
    unfolding with_path load
    with_path_again read renamed s calls reads =
        let (version, saved) = Calls-IsSaved calls (refl, inl (refl, refl)) in
        elim saved [
          | inl (missing, empty) ↦ rw (missing, empty) refl
          | inr (bytes, present, written) ↦ rw (present) (
              with_path_ok renamed s.state (some bytes)
                (load_ok s.state bytes version (reads bytes written)))
        ]
