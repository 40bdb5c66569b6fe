-- ===== src/Daemon/Backends.antt =====
-- scanbus-daemon/src/backends.rs: the backends in the order that decides ties. A backend is its id.
use scanbus_service.Common.{
  ℕ, suc, Bool, Option, none, some, List, [], ◌∷◌, ◌++◌, Bytes, beq, any, filter, find,
  if◌then◌else◌,
}
use scanbus_service.Common.Result.{Result, ok, err}

pub record RankedBackend : Type 0 where
  pub rank : ℕ
  pub backend : Bytes

pub record UnknownBackend : Type 0 where
  pub name : Bytes
  pub known : List Bytes

-- The loop of `Backends::new`, behind the backends that were taken.
unfoldable pub register : List Bytes → List Bytes → List Bytes
register entries [] = entries
register entries (backend ∷ backends) =
    register (if any (λ other. beq other backend) entries then entries else entries ++ backend ∷ [])
      backends

-- `Backends::new`; the list is also what `ids` answers.
abbrev pub new_backends : List Bytes → List Bytes
new_backends backends = register [] backends

-- `Backends::get`
unfoldable pub get : Bytes → List Bytes → Option Bytes
get id entries = find (λ backend. beq backend id) entries

-- The backends with their places, from a first place on.
unfoldable pub ranked_from : ℕ → List Bytes → List RankedBackend
ranked_from rank [] = []
ranked_from rank (backend ∷ backends) =
    record { rank = rank; backend = backend } ∷ ranked_from (suc rank) backends

-- `Backends::ranked`
abbrev pub ranked : List Bytes → List RankedBackend
ranked entries = ranked_from 0 entries

-- The first name that no backend has.
abbrev pub first_unknown : List Bytes → List Bytes → Option Bytes
first_unknown entries [] = none
first_unknown entries (name ∷ names) =
    if any (λ backend. beq backend name) entries then first_unknown entries names else some name

abbrev pub chosen : List Bytes → RankedBackend → Bool
chosen names entry = any (λ name. beq name entry.backend) names

-- `Backends::select`
unfoldable pub select :
    Option (List Bytes) → List Bytes → Result (List RankedBackend) UnknownBackend
select none entries = ok (ranked entries)
select (some names) entries = elim (first_unknown entries names) [
  | some name ↦ err (record { name = name; known = entries })
  | none ↦ ok (filter (chosen names) (ranked entries))
]
