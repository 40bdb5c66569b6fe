-- ===== src/Tests/Profiles.antt =====
-- Options that are set, stored and resolved.
use scanbus_service.Common.{◌≡◌, refl, none, some, List, [], ◌∷◌, codes, beq}
use scanbus_service.Common.Optional.{or_else}
use scanbus_service.Common.Result.{ok, err}
use scanbus_service.Core.Profile.{ProfileKind}
use scanbus_service.Core.Value.{Value, Dict}
use scanbus_service.Daemon.Options.{format_key, validate, declarations, check}
use scanbus_service.Daemon.Profiles.{
  ProfileRegistry, lookup, ephemeral, with_store_path, options_for, not_persisted, or_empty,
  set_options, resolve_options,
}
use scanbus_service.Daemon.Profiles.Maps.{IsMap}
use scanbus_service.Daemon.Profiles.Registry.{
  Change, changed, last_valid, options_for-changed, set_options_unwritten, resolve_options_lem,
}

abbrev as_png : Dict
as_png = (format_key, Value.str (codes "png")) ∷ []

as_png-valid : validate ProfileKind.image as_png ≡ ok tt
unfolding validate declarations check beq
as_png-valid = refl

abbrev changes : List Change
changes =
    (record { write = err (codes "disk full"); kind = ProfileKind.image; options = as_png })
    ∷ (record { write = ok tt; kind = ProfileKind.document; options = as_png })
    ∷ []

-- What the file held before.
abbrev on_disk : ProfileRegistry
on_disk = with_store_path (some ((ProfileKind.image, []) ∷ []))

options_for-changed_example :
    options_for (changed changes on_disk) ProfileKind.image
    ≡ or_else (last_valid ProfileKind.image changes) (options_for on_disk ProfileKind.image)
options_for-changed_example = options_for-changed changes on_disk ProfileKind.image

set_options_unwritten_example :
    ((set_options (err (codes "disk full")) ProfileKind.image as_png (with_store_path none)).0
      ≡ err (not_persisted (codes "disk full")))
    × (options_for
          (set_options (err (codes "disk full")) ProfileKind.image as_png (with_store_path none)).1
          ProfileKind.image
        ≡ some as_png)
    × ((set_options
          (err (codes "disk full"))
          ProfileKind.image
          as_png
          (with_store_path none)).1.file
        ≡ none)
set_options_unwritten_example =
    set_options_unwritten ProfileKind.image as_png (codes "disk full") none as_png-valid

as_png-IsMap : IsMap beq as_png
unfolding lookup
as_png-IsMap = (refl, tt)

resolve_options_lem_example :
    lookup beq format_key (resolve_options ephemeral (some ProfileKind.image) as_png)
    ≡ or_else
        (lookup beq format_key as_png)
        (lookup beq format_key (or_empty (options_for ephemeral ProfileKind.image)))
resolve_options_lem_example =
    resolve_options_lem ephemeral ProfileKind.image as_png format_key as_png-IsMap
