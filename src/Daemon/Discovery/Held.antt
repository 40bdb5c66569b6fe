-- ===== src/Daemon/Discovery/Held.antt =====
-- scanbus-daemon/src/discovery.rs: the session lives as long as someone holds it, and what it found goes
-- with it.
use scanbus_service.Common.{
  ◌≡◌, refl, ◌∙◌, Bool, true, false, not, ◌&&◌, Option, none, some, List, [], ◌∷◌, Bytes, beq, any,
  filter, arith, Bool-cases, Option-cases, inl, inr, if◌then◌else◌,
}
use scanbus_service.Common.Result.{Result-cases}
use scanbus_service.Daemon.Backends.{select}
use scanbus_service.Daemon.Objects.{Zbus, Tree}
use scanbus_service.Daemon.Scanners.{Registry, Std}
use scanbus_service.Daemon.Scanners.Calls.{Call, perform}
use scanbus_service.Daemon.Scanners.Index.{IsWell}
use scanbus_service.Daemon.Scanners.Steady.{end_discovery-IsWell}
use scanbus_service.Daemon.Scanners.Run.{perform-IsWell, new_registry-IsWell}
use scanbus_service.Daemon.Discovery.{
  Session, System, is_over, is_running, taken_by, start, is_nobody, release, stop, stop_ends, Step,
  task_step, Action, started, released, stopped, swept, worked, called, is_from_discovery,
  with_task, act, after_actions, new_system,
}
use scanbus_service.Daemon.Discovery.Quiet.{IsQuiet, end_discovery-IsQuiet}
use scanbus_service.Common.Maps.{lookup}
use scanbus_service.Daemon.Discovery.Steps.{IsNext, stage_cases}
use scanbus_service.Daemon.Discovery.Calls.{perform-IsQuiet}

-- While a stop is under way nobody holds discovery. Else nobody holds discovery and there is no session, or somebody holds it and the
-- session has had no signal. Where no task runs, only persistent entries are left.
abbrev pub IsHeld : Bool → Option Session → List Bytes → Registry → Type 0
IsHeld true session owners r = is_nobody owners ≡ true
IsHeld false none owners r = (is_nobody owners ≡ true) × IsQuiet r
IsHeld false (some session) owners r =
    (session.stop ≡ false) × (is_nobody owners ≡ false) × (is_over session.stage ≡ true → IsQuiet r)

abbrev pub IsSound : System → Type 0
IsSound s = IsWell s.registry × IsHeld s.stopping s.session s.owners s.registry

-- A system that is left is sound.
abbrev pub IsLeft : Option System → Type 0
IsLeft none = Unit
IsLeft (some s) = IsSound s

taken_by-is_nobody :
    (owner : Bytes) (owners : List Bytes) → is_nobody (taken_by owner owners) ≡ false
taken_by-is_nobody owner [] = refl
taken_by-is_nobody owner (o ∷ owners) = elim (Bool-cases (any (beq owner) (o ∷ owners))) [
  | inl held ↦ rw (taken_by, held) refl
  | inr new ↦ rw (taken_by, new) refl
]

-- `start` on the parts of a system whose lock is free.
alive_cases :
    (known : List Bytes) (owner : Bytes) (names : Option (List Bytes)) (s : System)
    (session : Option Session)
    → s.session ≡ session
    → s.stopping ≡ false
    → IsWell s.registry
    → IsHeld false session s.owners s.registry
    → IsSound (start known owner names s).1
unfolding start
alive_cases known owner names s none there free well held =
    elim (Result-cases (select names known)) [
      | inr (e, refused) ↦ rw (start, refused, free, there) (well, held)
      | inl (selected, taken) ↦
          rw (start, taken, there, free)
            (well, (refl, taken_by-is_nobody owner s.owners, λ ended. absurd (ground arith)))
    ]
alive_cases known owner names s (some session) there free well held =
    elim (Result-cases (select names known)) [
      | inr (e, refused) ↦ rw (start, refused, free, there) (well, held)
      | inl (selected, taken) ↦ elim (Bool-cases (is_over session.stage)) [
        | inl over ↦
            rw (start, taken, there, over, free)
              (well, (refl, taken_by-is_nobody owner s.owners, λ ended. absurd (ground arith)))
        | inr running ↦
            rw (start, taken, there, running, free)
              (rw (there)
                (well, (held.0, taken_by-is_nobody owner s.owners, λ ended. absurd (ground arith))))
      ]
    ]

is_nobody-any :
    (owner : Bytes) (owners : List Bytes) → is_nobody owners ≡ true → any (beq owner) owners ≡ false
is_nobody-any owner [] h = refl
is_nobody-any owner (o ∷ owners) h = absurd (ground arith)

-- `release_owner` on the parts of a system whose lock is free.
holder_cases :
    (owner : Bytes) (s : System) (session : Option Session)
    → s.session ≡ session
    → s.stopping ≡ false
    → IsWell s.registry
    → IsHeld false session s.owners s.registry
    → IsSound (release owner s)
unfolding release
holder_cases owner s none there free well held =
    let nothing = is_nobody-any owner s.owners held.0 in
    rw (release, nothing, free, there) (well, held)
holder_cases owner s (some session) there free well held =
    let left = filter (λ o. not (beq owner o)) s.owners in
    elim (Bool-cases (any (beq owner) s.owners)) [
      | inr stranger ↦ rw (release, stranger, free, there) (well, held)
      | inl holder ↦ elim (Bool-cases (is_nobody left)) [
        | inl last ↦ rw (release, holder, last) (well, last)
        | inr others ↦ rw (release, holder, others, free, there) (well, (held.0, others, held.2))
      ]
    ]

after_step :
    (s : System) (session : Session) (next : Option (Session × Registry))
    → s.session ≡ some session
    → IsNext session next
    → IsHeld s.stopping s.session s.owners s.registry
    → IsLeft (with_task next s)
after_step s session none there next held = tt
after_step s session (some (t, r)) there next held = elim (Bool-cases (s.stopping)) [
  | inl busy ↦
      let held : IsHeld true s.session s.owners s.registry = rw (busy) at held in
      rw (with_task, busy) (next.1, held)
  | inr free ↦
      let held : IsHeld false (some session) s.owners s.registry = rw (free, there) at held in
      rw (with_task, free) (next.1, (next.0 ∙ held.0, held.1, λ over. next.2 held.0 over))
]

unless_IsLeft :
    (b : Bool) (s : System) → (b ≡ false → IsSound s) → IsLeft (if b then none else some s)
unless_IsLeft true s h = tt
unless_IsLeft false s h = h refl

when_IsLeft : (b : Bool) (s : System) → (b ≡ true → IsSound s) → IsLeft (if b then some s else none)
when_IsLeft true s h = h refl
when_IsLeft false s h = tt

module _ (std : Std) (known : List Bytes) where
  called-IsHeld :
      (z : Zbus) (call : Call) (stopping : Bool) (session : Option Session) (owners : List Bytes)
      (r : Registry)
      → is_from_discovery call ≡ false
      → IsHeld stopping session owners r
      → IsHeld stopping session owners (perform std z call r)
  called-IsHeld z call true session owners r outside held = held
  called-IsHeld z call false none owners r outside held =
      (held.0, perform-IsQuiet std z call r outside held.1)
  called-IsHeld z call false (some session) owners r outside held =
      (held.0, held.1, λ over. perform-IsQuiet std z call r outside (held.2 over))

  -- A step of the task in a system whose session it is.
  work_cases :
      (z : Zbus) (step : Step) (s : System) (session : Option Session)
      → s.session ≡ session
      → IsSound s
      → IsLeft (act std known (worked z step) s)
  unfolding act
  work_cases z step s none there h = rw (act, there) tt
  work_cases z step s (some session) there h =
      rw (act, there)
        (after_step s session (task_step std z step session s.registry) there
          (stage_cases std z session s.registry step session.stage refl h.0) h.1)

  act-IsLeft : (action : Action) (s : System) → IsSound s → IsLeft (act std known action s)
  unfolding act
  act-IsLeft (started owner names) s (well, held) =
      unless_IsLeft s.stopping (start known owner names s).1
        (λ free. alive_cases known owner names s s.session refl free well (rw (free) at held))
  act-IsLeft (released owner) s (well, held) =
      unless_IsLeft s.stopping (release owner s)
        (λ free. holder_cases owner s s.session refl free well (rw (free) at held))
  act-IsLeft stopped s (well, held) = unless_IsLeft s.stopping (stop s) (λ free. (well, refl))
  act-IsLeft (swept z) s (well, held) =
      when_IsLeft (s.stopping && not (is_running s)) (stop_ends z s) (λ done.
        let busy : s.stopping ≡ true = ground arith in
        let nobody : is_nobody s.owners ≡ true = rw (busy) at held in
        (end_discovery-IsWell z s.registry well, (nobody, end_discovery-IsQuiet z s.registry well)))
  act-IsLeft (worked z step) s h = work_cases z step s s.session refl h
  act-IsLeft (called z call) s (well, held) =
      unless_IsLeft (is_from_discovery call) (record s { registry = perform std z call s.registry })
        (λ outside. (
          perform-IsWell std z call s.registry well,
          called-IsHeld z call s.stopping s.session s.owners s.registry outside held,
        ))

  pub after_actions-IsLeft :
      (actions : List Action) (s : System) → IsSound s → IsLeft (after_actions std known actions s)
  after_actions-IsLeft [] s h = h
  after_actions-IsLeft (action ∷ actions) s h = elim (Option-cases (act std known action s)) [
    | inl refused ↦ rw (after_actions, refused) tt
    | inr (t, done) ↦
        rw (after_actions, done)
          (after_actions-IsLeft actions t (rw (done) at (act-IsLeft action s h)))
  ]

pub new_system-IsSound : (tree : Tree) → IsSound (new_system tree)
unfolding lookup
new_system-IsSound tree =
    (new_registry-IsWell tree, (refl, λ id entry found. absurd (ground arith)))
