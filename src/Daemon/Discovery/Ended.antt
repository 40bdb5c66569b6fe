-- ===== src/Daemon/Discovery/Ended.antt =====
-- scanbus-daemon/src/discovery.rs: what is left of a session between the calls of clients.
use scanbus_service.Common.{
  ◌≡◌, refl, true, false, Option, none, some, List, Bytes, Bool-cases, inl, inr,
}
use scanbus_service.Core.Id.{ScannerId}
use scanbus_service.Daemon.Objects.{Tree}
use scanbus_service.Daemon.Scanners.{Entry, Std, find_entry}
use scanbus_service.Daemon.Discovery.{
  Session, System, is_over, is_running, is_nobody, Action, after_actions, new_system,
}
use scanbus_service.Daemon.Discovery.Quiet.{is_quiet, IsQuiet}
use scanbus_service.Daemon.Discovery.Held.{
  IsHeld, IsSound, after_actions-IsLeft, new_system-IsSound,
}

left-IsSound :
    (std : Std) (known : List Bytes) (actions : List Action) (tree : Tree) (s : System)
    → after_actions std known actions (new_system tree) ≡ some s
    → IsSound s
left-IsSound std known actions tree s h =
    rw (h) at (after_actions-IsLeft std known actions (new_system tree) (new_system-IsSound tree))

over-IsQuiet :
    (s : System) (session : Option Session)
    → s.session ≡ session
    → is_running s ≡ false
    → IsHeld false session s.owners s.registry
    → IsQuiet s.registry
over-IsQuiet s none there idle held = held.1
over-IsQuiet s (some session) there idle held = elim (Bool-cases (is_over session.stage)) [
  | inl over ↦ held.2 over
  | inr working ↦
      let running : is_running s ≡ true = rw (is_running, there, working) refl in absurd (cc)
]

nobody_idle :
    (s : System) (session : Option Session)
    → s.session ≡ session
    → is_nobody s.owners ≡ true
    → IsHeld false session s.owners s.registry
    → is_running s ≡ false
nobody_idle s none there nobody held = rw (is_running, there) refl
nobody_idle s (some session) there nobody held =
    let somebody : is_nobody s.owners ≡ false = held.1 in absurd (cc)

-- However clients start and release discovery, whatever the backends and zbus answer, and whatever else is
-- called between any two steps: while no stop is under way and no session runs, every entry of the
-- registry has the origin `Persistent`, and none is marked as seen by a session.
pub after_actions-is_quiet :
    (std : Std) (known : List Bytes) (actions : List Action) (tree : Tree) (s : System)
    (id : ScannerId) (entry : Entry)
    → after_actions std known actions (new_system tree) ≡ some s
    → s.stopping ≡ false
    → is_running s ≡ false
    → find_entry id s.registry ≡ some entry
    → is_quiet entry ≡ true
after_actions-is_quiet std known actions tree s id entry h free idle found =
    let (well, held) = left-IsSound std known actions tree s h in
    over-IsQuiet s s.session refl idle (rw (free) at held) id entry found

-- However clients start and release discovery, and whatever else happens between any two steps: while no
-- stop is under way, a session runs only if a client holds discovery.
pub after_actions-is_running :
    (std : Std) (known : List Bytes) (actions : List Action) (tree : Tree) (s : System)
    → after_actions std known actions (new_system tree) ≡ some s
    → s.stopping ≡ false
    → is_nobody s.owners ≡ true
    → is_running s ≡ false
after_actions-is_running std known actions tree s h free nobody =
    let (well, held) = left-IsSound std known actions tree s h in
    nobody_idle s s.session refl nobody (rw (free) at held)
