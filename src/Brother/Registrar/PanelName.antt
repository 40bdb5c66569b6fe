-- ===== src/Brother/Registrar/PanelName.antt =====
-- scanbus-backend-brother/src/registrar.rs: the name this host has on a panel.
use scanbus_service.Common.{inl, inr, refl, Option, none, some, Bytes, split, arith}
use scanbus_service.Common.Optional.{or_else}
use scanbus_service.Brother.Register.{UserName, sanitised}
use scanbus_service.Brother.Register.UserNames.{IsName, sanitised_lem}
use scanbus_service.Brother.Registrar.{panel_name_from, first_part, or_fallback}

abbrev IsNamed : Option UserName → Type 0
IsNamed none = Unit
IsNamed (some name) = IsName name.text

sanitised-IsNamed : (candidate : Bytes) → IsNamed (sanitised candidate)
sanitised-IsNamed candidate = elim (sanitised_lem candidate) [
  | inl (_, e) ↦ rw (e) tt
  | inr (user, e, h, _) ↦ rw (e) h
]

or_fallback-IsName :
    (first second : Option UserName)
    → IsNamed first
    → IsNamed second
    → IsName (or_fallback (or_else first second)).text
or_fallback-IsName (some name) second h k = h
or_fallback-IsName none (some name) h k = k
or_fallback-IsName none none h k = (omega arith, omega arith, refl)

-- Whatever the hostname, this host has a name that a panel accepts: one to fifteen ASCII letters and
-- digits.
pub panel_name_from-IsName : (hostname : Bytes) → IsName (panel_name_from hostname).text
unfolding panel_name_from
panel_name_from-IsName hostname =
    or_fallback-IsName (sanitised (first_part (split b'.' hostname))) (sanitised hostname)
      (sanitised-IsNamed (first_part (split b'.' hostname))) (sanitised-IsNamed hostname)
