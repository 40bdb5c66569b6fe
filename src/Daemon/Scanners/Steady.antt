-- ===== src/Daemon/Scanners/Steady.antt =====
-- scanbus-daemon/src/scanners.rs: the index is kept by the calls around the listeners, by the end of a
-- session and by the restore, and so by every sequence of calls.
use scanbus_service.Common.{
  ◌≡◌, refl, sym, ◌∙◌, Bool, true, false, Option, none, some, List, [], ◌∷◌, Bytes, beq, Bool-cases,
  Option-cases, inl, inr,
}
use scanbus_service.Common.Maps.{lookup, map_values, lookup-map_values}
use scanbus_service.Common.Maps.Order.{map_values-IsSorted}
use scanbus_service.Common.Result.{Result-cases}
use scanbus_service.Core.Id.{ScannerId}
use scanbus_service.Core.Status.{Status}
use scanbus_service.Daemon.Objects.{Answer, Zbus}
use scanbus_service.Daemon.Scanners.{
  Origin, running, Entry, Registry, Std, find_entry, put_entry, scanner_at, same_status,
}
use scanbus_service.Daemon.Scanners.Listening.{
  announce_connected, ensure_listening, stop_listening, is_running, set_status, give_up,
  mark_restore_offline,
}
use scanbus_service.Daemon.Scanners.Lifetime.{
  promote, retire, dropped, transient, sweep, unseen, end_discovery,
}
use scanbus_service.Daemon.Scanners.Calls.{or_same}
use scanbus_service.Daemon.Scanners.Index.{IsWell, drop-IsIndexed}
use scanbus_service.Daemon.Scanners.Sound.{IsKept, kept-IsWell, put_entry-IsWell}

pub announce_connected-IsKept :
    (z : Zbus) (id : ScannerId) (connected : Bool) (r : Registry)
    → IsKept r (announce_connected z id connected r)
unfolding announce_connected
announce_connected-IsKept z id connected r = elim (Result-cases (scanner_at z id r)) [
  | inl (object, there) ↦ rw (there) (refl, refl)
  | inr (e, gone) ↦ rw (gone) (refl, refl)
]

pub announced-IsWell :
    (z : Zbus) (id : ScannerId) (connected : Bool) (r : Registry)
    → IsWell r
    → IsWell (announce_connected z id connected r)
announced-IsWell z id connected r h =
    kept-IsWell r (announce_connected z id connected r) (announce_connected-IsKept z id connected r)
      h

pub ensure_listening-IsWell :
    (z : Zbus) (started : Answer) (id : ScannerId) (r : Registry)
    → IsWell r
    → IsWell (ensure_listening z started id r).1
unfolding ensure_listening
ensure_listening-IsWell z started id r h = elim (Option-cases (find_entry id r)) [
  | inl gone ↦ rw (ensure_listening, gone) h
  | inr (entry, found) ↦ elim (Bool-cases (is_running entry.listener)) [
    | inl on ↦ rw (ensure_listening, found, on) h
    | inr off ↦ elim (Result-cases started) [
      | inr (e, refused) ↦ rw (ensure_listening, found, off, refused) h
      | inl (_, took) ↦
          rw (ensure_listening, found, off, took)
            (announced-IsWell z id true _
              (put_entry-IsWell id entry (record entry { listener = some running }) r h found refl))
    ]
  ]
]

pub stop_listening-IsWell :
    (z : Zbus) (id : ScannerId) (r : Registry) → IsWell r → IsWell (stop_listening z id r).1
unfolding stop_listening
stop_listening-IsWell z id r h = elim (Option-cases (find_entry id r)) [
  | inl gone ↦ rw (stop_listening, gone) h
  | inr (entry, found) ↦
      rw (stop_listening, found)
        (announced-IsWell z id false _
          (put_entry-IsWell id entry (record entry { listener = none }) r h found refl))
]

pub promote-IsWell : (id : ScannerId) (r : Registry) → IsWell r → IsWell (promote id r)
unfolding promote
promote-IsWell id r h = elim (Option-cases (find_entry id r)) [
  | inl gone ↦ rw (promote, gone) h
  | inr (entry, found) ↦
      rw (promote, found)
        (put_entry-IsWell id entry (record entry { origin = Origin.persistent; rank = 0 }) r h found
          refl)
]

dropped-IsWell :
    (id : ScannerId) (entry : Entry) (r : Registry)
    → IsWell r
    → find_entry id r ≡ some entry
    → IsWell (dropped id entry r)
dropped-IsWell id entry r h found = drop-IsIndexed id.value entry r.entries r.owners h found

pub retire-IsWell : (z : Zbus) (id : ScannerId) (r : Registry) → IsWell r → IsWell (retire z id r).1
unfolding retire
retire-IsWell z id r h = elim (Option-cases (find_entry id r)) [
  | inl gone ↦ rw (retire, gone) h
  | inr (entry, found) ↦ elim (Bool-cases entry.discovered) [
    | inl seen ↦
        rw (retire, found, seen)
          (put_entry-IsWell id entry (record entry { listener = none; origin = Origin.discovered })
            r h found refl)
    | inr unseen ↦ rw (retire, found, unseen) (dropped-IsWell id entry r h found)
  ]
]

sweep-IsWell : (z : Zbus) (keys : List Bytes) (r : Registry) → IsWell r → IsWell (sweep z keys r).1
unfolding sweep
sweep-IsWell z [] r h = h
sweep-IsWell z (key ∷ keys) r h =
    let id : ScannerId = record { value = key } in
    elim (Option-cases (find_entry id r)) [
      | inl gone ↦ rw (gone) (sweep-IsWell z keys _ h)
      | inr (entry, found) ↦ rw (found) (sweep-IsWell z keys _ (dropped-IsWell id entry r h found))
    ]

pub values-IsWell :
    (f : Entry → Entry) (r : Registry)
    → ((e : Entry) → (f e).address ≡ e.address)
    → IsWell r
    → IsWell (record r { entries = map_values f r.entries })
values-IsWell f r same (sorted, owned) = (
  map_values-IsSorted f r.entries sorted,
  λ a i h. elim (Option-cases (lookup beq i.value r.entries)) [
    | inl gone ↦
        let claimed : ◌≡◌ {A = Option Bytes} none (some a) = rw (gone) at (owned a i h) in
        absurd (cc)
    | inr (entry, found) ↦
        let claimed : some entry.address ≡ some a = rw (found) at (owned a i h) in
        rw (lookup-map_values f i.value r.entries, found, same entry) claimed
  ],
)

pub end_discovery-IsWell : (z : Zbus) (r : Registry) → IsWell r → IsWell (end_discovery z r).1
unfolding end_discovery
end_discovery-IsWell z r h =
    values-IsWell unseen (sweep z (transient r.entries) r).1 (λ e. refl)
      (sweep-IsWell z (transient r.entries) r h)

module _ (std : Std) where
  pub set_status-IsKept :
      (z : Zbus) (status : Status) (entry : Entry) (r : Registry)
      → IsKept r (set_status std z status entry r).2
        × ((set_status std z status entry r).1.address ≡ entry.address)
  unfolding set_status
  set_status-IsKept z status entry r = elim (Bool-cases (same_status entry.info.status status)) [
    | inl same ↦ rw (set_status, same) ((refl, refl), refl)
    | inr differs ↦ elim (Result-cases (scanner_at z entry.info.id r)) [
      | inl (object, there) ↦ rw (set_status, differs, there) ((refl, refl), refl)
      | inr (e, gone) ↦ rw (set_status, differs, gone) ((refl, refl), refl)
    ]
  ]

  -- What `set_status` leaves goes back under its key.
  pub marked-IsWell :
      (z : Zbus) (status : Status) (id : ScannerId) (old entry : Entry) (r : Registry)
      → IsWell r
      → find_entry id r ≡ some old
      → old.address ≡ entry.address
      → IsWell
          (put_entry id (set_status std z status entry r).1 (set_status std z status entry r).2)
  marked-IsWell z status id old entry r h found same =
      let (kept, address) = set_status-IsKept z status entry r in
      put_entry-IsWell id old (set_status std z status entry r).1
        (set_status std z status entry r).2
        (kept-IsWell r (set_status std z status entry r).2 kept h) (rw (kept.0) found)
        (same ∙ sym address)

  pub give_up-IsWell :
      (z : Zbus) (id : ScannerId) (r : Registry)
      → IsWell r
      → IsWell (or_same r (give_up std z id r))
  unfolding give_up
  give_up-IsWell z id r h = elim (Option-cases (find_entry id r)) [
    | inl gone ↦ rw (give_up, gone) h
    | inr (entry, found) ↦
        rw (give_up, found)
          (marked-IsWell z Status.error id entry (record entry { listener = none }) r h found refl)
  ]

  pub mark_restore_offline-IsWell :
      (z : Zbus) (id : ScannerId) (r : Registry)
      → IsWell r
      → IsWell (mark_restore_offline std z id r)
  unfolding mark_restore_offline
  mark_restore_offline-IsWell z id r h = elim (Option-cases (find_entry id r)) [
    | inl gone ↦ rw (mark_restore_offline, gone) (announced-IsWell z id false r h)
    | inr (entry, found) ↦
        rw (mark_restore_offline, found)
          (announced-IsWell z id false _
            (marked-IsWell z Status.offline id entry entry r h found refl))
  ]
