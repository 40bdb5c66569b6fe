-- ===== src/Tests/Options.antt =====
-- Option maps for the image profile.
use scanbus_service.Common.{◌≡◌, refl, [], ◌∷◌, Bytes, codes}
use scanbus_service.Core.Profile.{ProfileKind}
use scanbus_service.Core.Value.{Value, Dict}
use scanbus_service.Daemon.Options.{validate, quality_key, format_key}
use scanbus_service.Daemon.Options.Schema.{schema, is_ok, all_accepted, validate-schema}

abbrev folder : Bytes
folder = codes "/home/scans"

abbrev given : Dict
given = (format_key, Value.str (codes "png")) ∷ (quality_key, Value.u64 100) ∷ []

validate-schema_example :
    is_ok (validate ProfileKind.image given) ≡ all_accepted (schema ProfileKind.image folder) given
validate-schema_example = validate-schema ProfileKind.image folder given refl
