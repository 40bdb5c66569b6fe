-- ===== src/Daemon/Discovery/Quiet.antt =====
-- scanbus-daemon/src/scanners.rs: a registry without a scanner that exists only for a session.
use mathlib.Core.Option
use mathlib.Core.Option.{some-injective}
use scanbus_service.Common.{
  ◌≡◌, refl, ◌∙◌, Bool, true, false, not, ◌&&◌, Option, none, some, beq, arith, Bool-cases,
  Option-cases, inl, inr, if◌then◌else◌,
}
use scanbus_service.Common.Maps.{lookup-put, lookup-remove, lookup-map_values, map_values}
use scanbus_service.Common.Result.{Result-cases}
use scanbus_service.Core.Id.{ScannerId}
use scanbus_service.Core.Status.{Status}
use scanbus_service.Daemon.Objects.{Answer, Zbus}
use scanbus_service.Daemon.Scanners.{
  Origin, Entry, Registry, Std, find_entry, put_entry, scanner_at, same_status,
}
use scanbus_service.Daemon.Scanners.Listening.{
  announce_connected, ensure_listening, stop_listening, is_running, set_status, give_up,
  mark_restore_offline,
}
use scanbus_service.Daemon.Scanners.Lifetime.{
  is_discovered, promote, retire, dropped, end_discovery, unseen, unheard,
}
use scanbus_service.Daemon.Scanners.Calls.{or_same}
use scanbus_service.Daemon.Scanners.Index.{IsWell}
use scanbus_service.Daemon.Scanners.Steady.{announce_connected-IsKept, set_status-IsKept}
use scanbus_service.Daemon.Scanners.Sessions.{end_discovery_found, survivor}

-- An entry whose origin is `Persistent` and that no session has marked as seen.
abbrev pub is_quiet : Entry → Bool
is_quiet entry = not (is_discovered entry.origin) && not entry.discovered

abbrev pub IsQuiet : Registry → Type 0
IsQuiet r = (id : ScannerId) (entry : Entry) → find_entry id r ≡ some entry → is_quiet entry ≡ true

pub same_entries-IsQuiet : (r s : Registry) → s.entries ≡ r.entries → IsQuiet r → IsQuiet s
same_entries-IsQuiet r s same h = λ id entry found. h id entry (rw (same) at found)

pub put_entry-IsQuiet :
    (id : ScannerId) (entry : Entry) (r : Registry)
    → is_quiet entry ≡ true
    → IsQuiet r
    → IsQuiet (put_entry id entry r)
put_entry-IsQuiet id entry r quiet h = λ i e found.
    let found : (if beq i.value id.value then some entry else find_entry i r) ≡ some e =
      rw (lookup-put i.value id.value entry r.entries) at found in
    elim (Bool-cases (beq i.value id.value)) [
      | inl here ↦
          let named : some entry ≡ some e = rw (here) at found in
          rw (← some-injective entry e named) quiet
      | inr other ↦ h i e (rw (other) at found)
    ]

-- An entry that is changed, but neither its origin nor the mark of the session.
alike-IsQuiet :
    (id : ScannerId) (old entry : Entry) (r : Registry)
    → find_entry id r ≡ some old
    → is_quiet entry ≡ is_quiet old
    → IsQuiet r
    → IsQuiet (put_entry id entry r)
alike-IsQuiet id old entry r found same h = put_entry-IsQuiet id entry r (same ∙ h id old found) h

dropped-IsQuiet :
    (id : ScannerId) (entry : Entry) (r : Registry) → IsQuiet r → IsQuiet (dropped id entry r)
dropped-IsQuiet id entry r h = λ i e found.
    let found : (if beq i.value id.value then none else find_entry i r) ≡ some e =
      rw (lookup-remove i.value id.value r.entries) at found in
    elim (Bool-cases (beq i.value id.value)) [
      | inl here ↦
          let nothing : ◌≡◌ {A = Option Entry} none (some e) = rw (here) at found in
          absurd (ground arith)
      | inr other ↦ h i e (rw (other) at found)
    ]

pub announce_connected-IsQuiet :
    (z : Zbus) (id : ScannerId) (connected : Bool) (r : Registry)
    → IsQuiet r
    → IsQuiet (announce_connected z id connected r)
announce_connected-IsQuiet z id connected r h =
    same_entries-IsQuiet r (announce_connected z id connected r)
      (announce_connected-IsKept z id connected r).0 h

pub promote-IsQuiet : (id : ScannerId) (r : Registry) → IsQuiet r → IsQuiet (promote id r)
unfolding promote
promote-IsQuiet id r h = elim (Option-cases (find_entry id r)) [
  | inl gone ↦ rw (promote, gone) h
  | inr (entry, found) ↦
      rw (promote, found)
        (put_entry-IsQuiet id (record entry { origin = Origin.persistent; rank = 0 }) r
          (ground (arith, h id entry found)) h)
]

pub retire-IsQuiet :
    (z : Zbus) (id : ScannerId) (r : Registry) → IsQuiet r → IsQuiet (retire z id r).1
unfolding retire
retire-IsQuiet z id r h = elim (Option-cases (find_entry id r)) [
  | inl gone ↦ rw (retire, gone) h
  | inr (entry, found) ↦
      let unmarked : entry.discovered ≡ false = ground (arith, h id entry found) in
      rw (retire, found, unmarked) (dropped-IsQuiet id entry r h)
]

pub ensure_listening-IsQuiet :
    (z : Zbus) (answer : Answer) (id : ScannerId) (r : Registry)
    → IsQuiet r
    → IsQuiet (ensure_listening z answer id r).1
unfolding ensure_listening
ensure_listening-IsQuiet z answer id r h = elim (Option-cases (find_entry id r)) [
  | inl gone ↦ rw (ensure_listening, gone) h
  | inr (entry, found) ↦ elim (Bool-cases (is_running entry.listener)) [
    | inl running ↦ rw (ensure_listening, found, running) h
    | inr idle ↦ elim (Result-cases answer) [
      | inr (e, refused) ↦ rw (ensure_listening, found, idle, refused) h
      | inl (_, started) ↦
          rw (ensure_listening, found, idle, started)
            (announce_connected-IsQuiet z id true (put_entry id _ r)
              (alike-IsQuiet id entry _ r found refl h))
    ]
  ]
]

pub stop_listening-IsQuiet :
    (z : Zbus) (id : ScannerId) (r : Registry) → IsQuiet r → IsQuiet (stop_listening z id r).1
unfolding stop_listening
stop_listening-IsQuiet z id r h = elim (Option-cases (find_entry id r)) [
  | inl gone ↦ rw (stop_listening, gone) h
  | inr (entry, found) ↦
      rw (stop_listening, found)
        (announce_connected-IsQuiet z id false (put_entry id _ r)
          (alike-IsQuiet id entry _ r found refl h))
]

-- The end of a session leaves no scanner that only it had.
pub end_discovery-IsQuiet : (z : Zbus) (r : Registry) → IsWell r → IsQuiet (end_discovery z r).1
end_discovery-IsQuiet z r well = λ id e found.
    let found : survivor (find_entry id r) ≡ some e =
      rw (end_discovery_found z id r well) at found in
    elim (Option-cases (find_entry id r)) [
      | inl gone ↦
          let nothing : ◌≡◌ {A = Option Entry} none (some e) = rw (gone) at found in
          absurd (ground arith)
      | inr (old, there) ↦ elim (Bool-cases (is_discovered old.origin)) [
        | inl passing ↦
            let nothing : ◌≡◌ {A = Option Entry} none (some e) =
              rw (there, survivor, passing) at found in
            absurd (ground arith)
        | inr staying ↦
            let left : some (unseen old) ≡ some e = rw (there, survivor, staying) at found in
            rw (← some-injective (unseen old) e left) (rw (staying) refl)
      ]
    ]

pub shutdown-IsQuiet :
    (r : Registry) → IsQuiet r → IsQuiet (record r { entries = map_values unheard r.entries })
shutdown-IsQuiet r h = λ id e found.
    let found : Option.map unheard (find_entry id r) ≡ some e =
      rw (lookup-map_values unheard id.value r.entries) at found in
    elim (Option-cases (find_entry id r)) [
      | inl gone ↦
          let nothing : ◌≡◌ {A = Option Entry} none (some e) = rw (gone) at found in
          absurd (ground arith)
      | inr (old, there) ↦
          let left : some (unheard old) ≡ some e = rw (there) at found in
          rw (← some-injective (unheard old) e left) (h id old there)
    ]

module _ (std : Std) where
  set_status-is_quiet :
      (z : Zbus) (status : Status) (entry : Entry) (r : Registry)
      → is_quiet (set_status std z status entry r).1 ≡ is_quiet entry
  unfolding set_status
  set_status-is_quiet z status entry r = elim (Bool-cases (same_status entry.info.status status)) [
    | inl same ↦ rw (set_status, same) refl
    | inr differs ↦ elim (Result-cases (scanner_at z entry.info.id r)) [
      | inl (object, there) ↦ rw (set_status, differs, there) refl
      | inr (e, gone) ↦ rw (set_status, differs, gone) refl
    ]
  ]

  marked-IsQuiet :
      (z : Zbus) (status : Status) (id : ScannerId) (entry : Entry) (r : Registry)
      → is_quiet entry ≡ true
      → IsQuiet r
      → IsQuiet
          (put_entry id (set_status std z status entry r).1 (set_status std z status entry r).2)
  marked-IsQuiet z status id entry r quiet h =
      put_entry-IsQuiet id (set_status std z status entry r).1 (set_status std z status entry r).2
        (set_status-is_quiet z status entry r ∙ quiet)
        (same_entries-IsQuiet r (set_status std z status entry r).2
          (set_status-IsKept std z status entry r).0.0 h)

  pub give_up-IsQuiet :
      (z : Zbus) (id : ScannerId) (r : Registry)
      → IsQuiet r
      → IsQuiet (or_same r (give_up std z id r))
  unfolding give_up
  give_up-IsQuiet z id r h = elim (Option-cases (find_entry id r)) [
    | inl gone ↦ rw (give_up, gone) h
    | inr (entry, found) ↦
        rw (give_up, found)
          (marked-IsQuiet z Status.error id (record entry { listener = none }) r (h id entry found)
            h)
  ]

  pub mark_restore_offline-IsQuiet :
      (z : Zbus) (id : ScannerId) (r : Registry)
      → IsQuiet r
      → IsQuiet (mark_restore_offline std z id r)
  unfolding mark_restore_offline
  mark_restore_offline-IsQuiet z id r h = elim (Option-cases (find_entry id r)) [
    | inl gone ↦ rw (mark_restore_offline, gone) (announce_connected-IsQuiet z id false r h)
    | inr (entry, found) ↦
        rw (mark_restore_offline, found)
          (announce_connected-IsQuiet z id false _
            (marked-IsQuiet z Status.offline id entry r (h id entry found) h))
  ]
