-- ===== src/Daemon/Profiles/Maps.antt =====
-- scanbus-daemon/src/profiles.rs: what is found in a map after an insertion, and after a merge.
use scanbus_service.Common.{◌≡◌, refl, Bool, true, none, List, [], ◌∷◌, Bool-cases, inl, inr}
use scanbus_service.Common.Optional.{or_else}
use scanbus_service.Common.Maps.{lookup, insert}
pub use scanbus_service.Common.Maps.{IsMap, lookup-insert}
use scanbus_service.Daemon.Profiles.{merge}

module _ {K V : Type 0} (same before : K → K → Bool) (same_refl : (k : K) → same k k ≡ true)
    (same→eq : (k l : K) → same k l ≡ true → k ≡ l) where
  -- After a merge a key is found with the added value if there is one, and as before otherwise.
  pub lookup-merge :
      (key : K) (merged added : List (K × V))
      → IsMap same added
      → lookup same key (merge same before merged added)
        ≡ or_else (lookup same key added) (lookup same key merged)
  unfolding lookup merge
  lookup-merge key merged [] h = refl
  lookup-merge key merged ((k, v) ∷ added) (fresh, h) = elim (Bool-cases (same key k)) [
    | inl here ↦
        let absent : lookup same key added ≡ none = rw (same→eq key k here) fresh in
        rw
          (
            lookup-merge key (insert same before k v merged) added h,
            lookup-insert same before same_refl same→eq key k v merged,
            here,
            absent,
          )
          refl
    | inr other ↦
        rw
          (
            lookup-merge key (insert same before k v merged) added h,
            lookup-insert same before same_refl same→eq key k v merged,
            other,
          )
          refl
  ]
