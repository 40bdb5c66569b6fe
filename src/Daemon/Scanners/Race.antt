-- ===== src/Daemon/Scanners/Race.antt =====
-- scanbus-daemon/src/scanners.rs: `listener_failed` announces after it has given the lock back, and a
-- `Connect` takes it in between.
use mathlib.Core.Option
use scanbus_service.Common.{
  ◌≡◌, refl, Bool, true, false, none, some, ◌∷◌, beq, Bool-cases, inl, inr,
}
use scanbus_service.Common.Maps.{lookup, lookup-put_self}
use scanbus_service.Common.Result.{ok, Result-cases}
use scanbus_service.Core.Id.{ScannerId}
use scanbus_service.Core.Status.{Status}
use scanbus_service.Daemon.Objects.{Zbus}
use scanbus_service.Daemon.Scanners.{
  running, Entry, Scanner1, Registry, Std, find_entry, put_entry, same_status, scanner_at,
}
use scanbus_service.Daemon.Scanners.Listening.{
  announce_connected, ensure_listening, is_running, is_listening, set_status, give_up,
}
use scanbus_service.Daemon.Scanners.Calls.{or_same}
use scanbus_service.Daemon.Scanners.Steady.{announce_connected-IsKept}

-- After an announcement the object and the last write of the store agree on it.
announced_lem :
    (z : Zbus) (id : ScannerId) (connected : Bool) (r : Registry) (object : Scanner1)
    → scanner_at z id r ≡ ok object
    → Option.map
        (λ o. o.connected)
        (lookup beq id.value (announce_connected z id connected r).exported)
      ≡ some connected
unfolding announce_connected
announced_lem z id connected r object there =
    rw (there)
      (rw (lookup-put_self id.value (record object { connected = connected }) r.exported) refl)

announce_connected-saved :
    (z : Zbus) (id : ScannerId) (connected : Bool) (r : Registry)
    → (announce_connected z id connected r).saved ≡ (id, connected) ∷ r.saved
unfolding announce_connected
announce_connected-saved z id connected r = elim (Result-cases (scanner_at z id r)) [
  | inl (object, there) ↦ rw (there) refl
  | inr (e, gone) ↦ rw (gone) refl
]

-- What a `Connect` of an idle scanner leaves, when the backend starts.
connected_lem :
    (z : Zbus) (id : ScannerId) (entry : Entry) (r : Registry)
    → find_entry id r ≡ some entry
    → is_running entry.listener ≡ false
    → (is_listening id (ensure_listening z (ok tt) id r).1 ≡ true)
      × ((ensure_listening z (ok tt) id r).1.saved ≡ (id, true) ∷ r.saved)
unfolding ensure_listening
connected_lem z id entry r there idle =
    let put = put_entry id (record entry { listener = some running }) r in
    let (entries, owners) = announce_connected-IsKept z id true put in
    rw (ensure_listening, there, idle)
      (
        rw (is_listening, entries, lookup-put_self id.value _ r.entries) refl,
        announce_connected-saved z id true put,
      )

module _ (std : Std) where
  set_status-listener :
      (z : Zbus) (status : Status) (entry : Entry) (r : Registry)
      → (set_status std z status entry r).1.listener ≡ entry.listener
  unfolding set_status
  set_status-listener z status entry r = elim (Bool-cases (same_status entry.info.status status)) [
    | inl same ↦ rw (set_status, same) refl
    | inr differs ↦ elim (Result-cases (scanner_at z entry.info.id r)) [
      | inl (object, there) ↦ rw (set_status, differs, there) refl
      | inr (e, gone) ↦ rw (set_status, differs, gone) refl
    ]
  ]

  set_status-saved :
      (z : Zbus) (status : Status) (entry : Entry) (r : Registry)
      → (set_status std z status entry r).2.saved ≡ r.saved
  unfolding set_status
  set_status-saved z status entry r = elim (Bool-cases (same_status entry.info.status status)) [
    | inl same ↦ rw (set_status, same) refl
    | inr differs ↦ elim (Result-cases (scanner_at z entry.info.id r)) [
      | inl (object, there) ↦ rw (set_status, differs, there) refl
      | inr (e, gone) ↦ rw (set_status, differs, gone) refl
    ]
  ]

  -- A `Connect` that takes the lock between the two halves of `listener_failed`, on a backend that starts:
  -- the new listener runs, and `Connected` is false on the object and in the last write of the store.
  pub give_up-ensure_listening :
      (z : Zbus) (id : ScannerId) (entry : Entry) (r : Registry) (object : Scanner1)
      → find_entry id r ≡ some entry
      → scanner_at z id (ensure_listening z (ok tt) id (or_same r (give_up std z id r))).1
        ≡ ok object
      → let s =
          announce_connected z id false
            (ensure_listening z (ok tt) id (or_same r (give_up std z id r))).1 in
        (is_listening id s ≡ true)
        × (Option.map (λ o. o.connected) (lookup beq id.value s.exported) ≡ some false)
        × (s.saved ≡ (id, false) ∷ (id, true) ∷ r.saved)
  unfolding give_up
  give_up-ensure_listening z id entry r object there served =
      let quiet : Entry = record entry { listener = none } in
      let left = (set_status std z Status.error quiet r).1 in
      let objects = (set_status std z Status.error quiet r).2 in
      let given : give_up std z id r ≡ some (put_entry id left objects) =
        rw (give_up, there) refl in
      let served : scanner_at z id (ensure_listening z (ok tt) id (put_entry id left objects)).1
          ≡ ok object =
        rw (given) at served in
      let idle : is_running left.listener ≡ false =
        rw (set_status-listener z Status.error quiet r) refl in
      let (listening, saved) =
        connected_lem z id left (put_entry id left objects)
          (lookup-put_self id.value left objects.entries) idle in
      let t = (ensure_listening z (ok tt) id (put_entry id left objects)).1 in
      rw (given) (
        rw (is_listening, (announce_connected-IsKept z id false t).0) listening,
        announced_lem z id false t object served,
        rw (announce_connected-saved z id false t, saved, set_status-saved z Status.error quiet r)
            refl,
      )
