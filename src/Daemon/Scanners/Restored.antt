-- ===== src/Daemon/Scanners/Restored.antt =====
-- scanbus-daemon/src/scanners.rs: a stored scanner whose backend is there has its object after the restore.
use scanbus_service.Common.{
  ◌≡◌, refl, Bool, true, false, Option, none, some, List, [], ◌∷◌, ◌++◌, Bytes, beq, beq→eq,
  beq_refl, arith, Bool-cases, Option-cases, inl, inr,
}
use scanbus_service.Common.Maps.{lookup-put}
use scanbus_service.Common.Result.{Result, ok, err, Result-cases}
use scanbus_service.Core.Id.{ScannerId}
use scanbus_service.Core.Model.{ScannerInfo, button_count}
use scanbus_service.Core.PairingState.{PairingState}
use scanbus_service.Core.Status.{Status}
use scanbus_service.Daemon.Backends.{get}
use scanbus_service.Daemon.Objects.{Answer, Error, Zbus}
use scanbus_service.Daemon.Scanners.{
  Origin, Entry, Scanner1, Registry, Std, Fault, find_entry, put_entry, scanner_at, put_exported,
  publish, sync_buttons, update, same_status,
}
use scanbus_service.Daemon.Scanners.Listening.{
  announce_connected, ensure_listening, is_running, set_status, mark_restore_offline,
}
use scanbus_service.Daemon.Scanners.Lifetime.{origin}
use scanbus_service.Daemon.Scanners.Restore.{
  register_persistent, persistent_entry, promoted, announced, restored, is_done,
  set_restored_pairing_state, state_of, Disposition, paired, failed_with, Answers, relistened,
  reconnected, restore_one, restore,
}
use scanbus_service.Daemon.Scanners.Sound.{sync_buttons-IsKept}
use scanbus_service.Daemon.Scanners.Steady.{announce_connected-IsKept, set_status-IsKept}
use scanbus_service.Daemon.Scanners.Takeover.{Exports, publish_exported}
use scanbus_service.Daemon.Store.{Restorable}

-- The scanner has an object that stays.
abbrev pub IsBound : ScannerId → Registry → Type 0
IsBound id r = origin id r ≡ some Origin.persistent

kept-IsBound : (i : ScannerId) (r s : Registry) → s.entries ≡ r.entries → IsBound i r → IsBound i s
kept-IsBound i r s same h = rw (origin, same) h

put_entry-IsBound :
    (i id : ScannerId) (entry : Entry) (r : Registry)
    → entry.origin ≡ Origin.persistent
    → (beq i.value id.value ≡ false → IsBound i r)
    → IsBound i (put_entry id entry r)
put_entry-IsBound i id entry r stays h = elim (Bool-cases (beq i.value id.value)) [
  | inl here ↦ rw (origin, lookup-put i.value id.value entry r.entries, here, stays) refl
  | inr other ↦ rw (origin, lookup-put i.value id.value entry r.entries, other) (h other)
]

put_alike-IsBound :
    (i id : ScannerId) (old entry : Entry) (r : Registry)
    → find_entry id r ≡ some old
    → entry.origin ≡ old.origin
    → IsBound i r
    → IsBound i (put_entry id entry r)
put_alike-IsBound i id old entry r found same h = elim (Bool-cases (beq i.value id.value)) [
  | inr other ↦ rw (origin, lookup-put i.value id.value entry r.entries, other) h
  | inl here ↦
      let h : some old.origin ≡ some Origin.persistent =
        rw (origin, beq→eq i.value id.value here, found) at h in
      rw (origin, lookup-put i.value id.value entry r.entries, here, same) h
]

announce_connected-IsBound :
    (i : ScannerId) (z : Zbus) (id : ScannerId) (connected : Bool) (r : Registry)
    → IsBound i r
    → IsBound i (announce_connected z id connected r)
announce_connected-IsBound i z id connected r h =
    kept-IsBound i r (announce_connected z id connected r)
      (announce_connected-IsKept z id connected r).0 h

ensure_listening-IsBound :
    (i : ScannerId) (z : Zbus) (answer : Answer) (id : ScannerId) (r : Registry)
    → IsBound i r
    → IsBound i (ensure_listening z answer id r).1
unfolding ensure_listening
ensure_listening-IsBound i z answer id r h = elim (Option-cases (find_entry id r)) [
  | inl gone ↦ rw (ensure_listening, gone) h
  | inr (entry, found) ↦ elim (Bool-cases (is_running entry.listener)) [
    | inl busy ↦ rw (ensure_listening, found, busy) h
    | inr idle ↦ elim (Result-cases answer) [
      | inr (e, refused) ↦ rw (ensure_listening, found, idle, refused) h
      | inl (_, started) ↦
          rw (ensure_listening, found, idle, started)
            (announce_connected-IsBound i z id true (put_entry id _ r)
              (put_alike-IsBound i id entry _ r found refl h))
    ]
  ]
]

restored-IsBound :
    (i id : ScannerId) (object : Result Scanner1 Fault) (r : Registry)
    → IsBound i r
    → IsBound i (restored id object r).1
restored-IsBound i id (err e) r h = h
restored-IsBound i id (ok object) r h = h

module _ (std : Std) where
  set_status-origin :
      (z : Zbus) (status : Status) (entry : Entry) (r : Registry)
      → (set_status std z status entry r).1.origin ≡ entry.origin
  unfolding set_status
  set_status-origin z status entry r = elim (Bool-cases (same_status entry.info.status status)) [
    | inl same ↦ rw (set_status, same) refl
    | inr differs ↦ elim (Result-cases (scanner_at z entry.info.id r)) [
      | inl (object, there) ↦ rw (set_status, differs, there) refl
      | inr (e, gone) ↦ rw (set_status, differs, gone) refl
    ]
  ]

  mark_restore_offline-IsBound :
      (i : ScannerId) (z : Zbus) (id : ScannerId) (r : Registry)
      → IsBound i r
      → IsBound i (mark_restore_offline std z id r)
  unfolding mark_restore_offline
  mark_restore_offline-IsBound i z id r h = elim (Option-cases (find_entry id r)) [
    | inl gone ↦ rw (mark_restore_offline, gone) (announce_connected-IsBound i z id false r h)
    | inr (entry, found) ↦
        let objects = (set_status std z Status.offline entry r).2 in
        let same = (set_status-IsKept std z Status.offline entry r).0.0 in
        rw (mark_restore_offline, found)
          (announce_connected-IsBound i z id false _ (
            put_alike-IsBound i id entry _ objects (rw (same) found)
              (set_status-origin z Status.offline entry r) (kept-IsBound i r objects same h)))
  ]

  promoted-IsBound :
      (i : ScannerId) (z : Zbus) (info : ScannerInfo) (state : PairingState) (entry : Entry)
      (object : Result Scanner1 Error) (r : Registry)
      → IsBound i r
      → IsBound i (promoted std z info state entry object r).1
  promoted-IsBound i z info state entry (err e) r h = h
  promoted-IsBound i z info state entry (ok object) r h =
      let changed = update std z info object in
      let s = put_exported info.id changed.1 r in
      let previous = button_count entry.info.capabilities in
      elim (Result-cases (changed.0)) [
        | inr (source, unheard) ↦ rw (promoted, unheard) h
        | inl (_, heard) ↦
            rw (promoted, heard)
              (restored-IsBound i info.id (set_restored_pairing_state state changed.1)
                (sync_buttons z previous info s)
                (kept-IsBound i s (sync_buttons z previous info s)
                  (sync_buttons-IsKept z previous info s).0 h))
      ]

  announced-IsBound :
      (i : ScannerId) (z : Zbus) (info : ScannerInfo) (state : PairingState)
      (published : Result (Unit {0}) Fault × Registry)
      → IsBound i published.1
      → IsBound i (announced std z info state published).1
  announced-IsBound i z info state (err e, r) h = h
  announced-IsBound i z info state (ok _, r) h = elim (Result-cases (scanner_at z info.id r)) [
    | inr (e, gone) ↦ rw (announced, gone) h
    | inl (object, there) ↦
        rw (announced, there)
          (restored-IsBound i info.id (set_restored_pairing_state state object) r h)
  ]

  -- Registering a scanner binds it, and unbinds no other.
  register_persistent-IsBound :
      (i : ScannerId) (z : Zbus) (backend : Bytes) (info : ScannerInfo) (state : PairingState)
      (r : Registry)
      → Exports z
      → (beq i.value info.id.value ≡ false → IsBound i r)
      → IsBound i (register_persistent std z backend info state r).1
  unfolding register_persistent
  register_persistent-IsBound i z backend info state r all h =
      elim (Option-cases (find_entry info.id r)) [
        | inl fresh ↦
            let entry = persistent_entry std backend info in
            let shown = publish z info entry (is_done state) r in
            rw (register_persistent, fresh)
              (announced-IsBound i z info state shown (
                kept-IsBound i (put_entry info.id entry r) shown.1
                  (publish_exported z info entry (is_done state) r all).1
                  (put_entry-IsBound i info.id entry r refl h)))
        | inr (old, found) ↦
            let entry : Entry = record old { origin = Origin.persistent; info = info; rank = 0 } in
            rw (register_persistent, found)
              (promoted-IsBound i z info state old
                (scanner_at z info.id (put_entry info.id entry r)) (put_entry info.id entry r)
                (put_entry-IsBound i info.id entry r refl h))
      ]

  relistened-IsBound :
      (i : ScannerId) (z : Zbus) (listening : Option Answer) (id : ScannerId) (r : Registry)
      → IsBound i r
      → IsBound i (relistened std z listening id r)
  relistened-IsBound i z none id r h = mark_restore_offline-IsBound i z id r h
  relistened-IsBound i z (some answer) id r h =
      let listening = ensure_listening-IsBound i z answer id r h in
      elim (Result-cases (ensure_listening z answer id r).0) [
        | inl (_, heard) ↦ rw (relistened, heard) listening
        | inr (e, refused) ↦
            rw (relistened, refused)
              (mark_restore_offline-IsBound i z id (ensure_listening z answer id r).1 listening)
      ]

  disposition_cases :
      (i : ScannerId) (z : Zbus) (listening : Option Answer) (disposition : Disposition)
      (stored : Restorable) (registered : Result (Unit {0}) Fault × Registry)
      → IsBound i registered.1
      → IsBound i (
          reconnected std z
            (record { disposition = disposition; listening = listening })
            stored
            registered)
  disposition_cases i z listening disposition stored (err e, r) h = h
  disposition_cases i z listening (failed_with message) stored (ok _, r) h = h
  disposition_cases i z listening paired stored (ok _, r) h = elim (Bool-cases (stored.connected)) [
    | inl was ↦ rw (reconnected, was) (relistened-IsBound i z listening stored.scanner.id r h)
    | inr idle ↦ rw (reconnected, idle) h
  ]

  restore_one-IsBound :
      (i : ScannerId) (z : Zbus) (backends : List Bytes) (a : Answers) (stored : Restorable)
      (r : Registry)
      → Exports z
      → (beq i.value stored.scanner.id.value ≡ false → IsBound i r)
      → (get stored.scanner.backend backends ≡ none → IsBound i r)
      → IsBound i (restore_one std z backends a stored r)
  unfolding restore_one
  restore_one-IsBound i z backends a stored r all h unnamed =
      elim (Option-cases (get stored.scanner.backend backends)) [
        | inl nothing ↦ rw (restore_one, nothing) (unnamed nothing)
        | inr (backend, named) ↦
            rw (restore_one, named)
              (disposition_cases i z a.listening a.disposition stored
                (register_persistent std z backend stored.scanner (state_of a.disposition) r)
                (register_persistent-IsBound i z backend stored.scanner (state_of a.disposition) r
                  all h))
      ]

  restore-IsBound :
      (i : ScannerId) (z : Zbus) (backends : List Bytes) (entries : List (Answers × Restorable))
      (r : Registry)
      → Exports z
      → IsBound i r
      → IsBound i (restore std z backends entries r)
  unfolding restore
  restore-IsBound i z backends [] r all h = h
  restore-IsBound i z backends ((a, stored) ∷ entries) r all h =
      restore-IsBound i z backends entries (restore_one std z backends a stored r) all
        (restore_one-IsBound i z backends a stored r all (λ other. h) (λ nothing. h))

  -- After the restore, every stored scanner that names a backend of the daemon has an object that stays,
  -- whatever the backends answer and whatever else the store holds, if zbus takes every export.
  pub restore_lem :
      (z : Zbus) (backends : List Bytes) (earlier later : List (Answers × Restorable)) (a : Answers)
      (stored : Restorable) (r : Registry) (backend : Bytes)
      → Exports z
      → get stored.scanner.backend backends ≡ some backend
      → origin stored.scanner.id (restore std z backends (earlier ++ (a, stored) ∷ later) r)
        ≡ some Origin.persistent
  unfolding restore
  restore_lem z backends [] later a stored r backend all named =
      restore-IsBound stored.scanner.id z backends later (restore_one std z backends a stored r) all
        (restore_one-IsBound stored.scanner.id z backends a stored r all
          (λ other. let same = beq_refl stored.scanner.id.value in absurd (cc))
          (λ nothing. absurd (ground arith)))
  restore_lem z backends ((b, first) ∷ earlier) later a stored r backend all named =
      restore_lem z backends earlier later a stored (restore_one std z backends b first r) backend
        all named
