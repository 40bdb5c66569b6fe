-- ===== src/Tests/Objects.antt =====
-- A scanner with a key goes, and one whose id begins alike stays.
use scanbus_service.Common.{◌≡◌, refl, true, ◌||◌, none, [], ◌∷◌, codes, beq, if◌then◌else◌}
use scanbus_service.Common.Maps.{lookup}
use scanbus_service.Common.Result.{ok}
use scanbus_service.Daemon.Objects.{Zbus, Tree, is_below, remove_subtree}
use scanbus_service.Daemon.Objects.Subtree.{lookup-remove_subtree}

abbrev z : Zbus
z = record {
  at = λ path name. ok true;
  remove_named = λ path name. ok tt;
  interface = λ path name. ok tt;
  emit = λ path name. ok tt;
}

abbrev tree : Tree
tree =
    (codes "/s/a", codes "Scanner1" ∷ [])
    ∷ (codes "/s/a/button/0", codes "Button1" ∷ [])
    ∷ (codes "/s/ab", codes "Scanner1" ∷ [])
    ∷ []

lookup-remove_subtree_example :
    lookup beq (codes "/s/ab") (remove_subtree z (codes "/s/a") tree).1 ≡ (
      if beq (codes "/s/a") (codes "/s/ab") || is_below (codes "/s/a") (codes "/s/ab")
      then none
      else lookup beq (codes "/s/ab") tree)
lookup-remove_subtree_example =
    lookup-remove_subtree z (codes "/s/ab") (codes "/s/a") tree (λ path name. refl)
