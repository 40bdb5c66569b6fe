-- ===== src/Daemon/Scanners/Lifetime.antt =====
-- scanbus-daemon/src/scanners.rs: how an object comes to stay and when it goes.
use scanbus_service.Common.{
  ℕ, suc, Bool, true, false, not, ◌||◌, Option, none, some, List, [], ◌∷◌, Bytes, beq, any, map,
  if◌then◌else◌,
}
use scanbus_service.Common.Maps.{remove, map_values, insert, text_before}
use scanbus_service.Common.Result.{Result, ok, err}
use scanbus_service.Core.Id.{ScannerId}
use scanbus_service.Core.Path as ObjectPath
use scanbus_service.Core.Status.{Status}
use scanbus_service.Daemon.Objects.{Error, Zbus, remove_subtree}
use scanbus_service.Daemon.Scanners.{Origin, Entry, Registry, Std, find_entry, put_entry}
use scanbus_service.Daemon.Scanners.Listening.{set_status}

-- `promote`
unfoldable pub promote : ScannerId → Registry → Registry
promote id r = elim (find_entry id r) [
  | none ↦ r
  | some entry ↦ put_entry id (record entry { origin = Origin.persistent; rank = 0 }) r
]

pub data Retired : Type 0 where
  removed kept unknown : Retired

-- An entry and its address leave the map and the index.
abbrev pub dropped : ScannerId → Entry → Registry → Registry
dropped id entry r = record r {
  entries = remove id.value r.entries;
  owners = remove entry.address r.owners;
}

-- `retire`
unfoldable pub retire : Zbus → ScannerId → Registry → Retired × Registry
retire z id r = elim (find_entry id r) [
  | none ↦ (Retired.unknown, r)
  | some entry ↦ elim entry.discovered [
    | true ↦ (
      Retired.kept,
      put_entry id (record entry { listener = none; origin = Origin.discovered }) r,
    )
    | false ↦
        let r = dropped id entry r in
        (Retired.removed, record r { tree = (remove_subtree z (ObjectPath.scanner id) r.tree).1 })
  ]
]

abbrev pub is_discovered : Origin → Bool
is_discovered Origin.discovered = true
is_discovered Origin.persistent = false

-- The ids of the scanners that exist only because a probe saw them.
unfoldable pub transient : List (Bytes × Entry) → List Bytes
transient [] = []
transient ((key, entry) ∷ entries) =
    let rest = transient entries in if is_discovered entry.origin then key ∷ rest else rest

abbrev pub counted : Result (Unit {0}) Error → ℕ → ℕ
counted (ok _) n = suc n
counted (err _) n = n

abbrev pub drop_entry : ScannerId → Option Entry → Registry → Registry
drop_entry id none r = r
drop_entry id (some entry) r = dropped id entry r

-- The loop of `end_discovery`, with the number of objects that went away.
unfoldable pub sweep : Zbus → List Bytes → Registry → ℕ × Registry
sweep z [] r = (0, r)
sweep z (key ∷ keys) r =
    let id : ScannerId = record { value = key } in
    let (answer, tree) = remove_subtree z (ObjectPath.scanner id) r.tree in
    let (count, r) = sweep z keys (drop_entry id (find_entry id r) (record r { tree = tree })) in
    (counted answer count, r)

abbrev pub unseen : Entry → Entry
unseen entry = record entry { discovered = false }

-- `end_discovery`
unfoldable pub end_discovery : Zbus → Registry → ℕ × Registry
end_discovery z r =
    let (count, r) = sweep z (transient r.entries) r in
    (count, record r { entries = map_values unseen r.entries })

module _ (std : Std) where
  -- The loop of `mark_unseen_offline`
  unfoldable pub mark_each :
      Zbus → List Bytes → List ScannerId → List (Bytes × Entry) → Registry → Registry
  mark_each z probed seen [] r = r
  mark_each z probed seen ((key, entry) ∷ entries) r =
      let (moved, marked, s) = set_status std z Status.offline entry r in
      let skipped = mark_each z probed seen entries r in
      let rest =
        mark_each z probed seen entries
          (record s { entries = insert beq text_before key marked s.entries }) in
      if not (any (beq entry.backend) probed) || any (λ id. beq id.value key) seen
      then skipped
      else rest

  -- `mark_unseen_offline`
  unfoldable pub mark_unseen_offline : Zbus → List Bytes → List ScannerId → Registry → Registry
  mark_unseen_offline z probed seen r = mark_each z probed seen r.entries r

abbrev pub unheard : Entry → Entry
unheard entry = record entry { listener = none }

-- `shutdown`: every listener is stopped, and nothing is announced.
abbrev pub shutdown : Registry → Registry
shutdown r = record r { entries = map_values unheard r.entries }

-- `ids`, and `origin`
abbrev pub ids : Registry → List Bytes
ids r = map (λ e. e.0) r.entries

abbrev pub origin : ScannerId → Registry → Option Origin
origin id r = elim (find_entry id r) [ none ↦ none | some entry ↦ some entry.origin ]
