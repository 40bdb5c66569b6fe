-- ===== src/Tests/Listeners.antt =====
-- A key press, and a listener that gives up.
use scanbus_service.Common.{ℕ, ◌≡◌, refl, List, [], ◌∷◌, Option, none, some, codes}
use scanbus_service.Core.Profile.{ProfileKind}
use scanbus_service.Daemon.Listeners.{
  TriggerKind, ButtonEvent, RestartPolicy, Happening, delay, saturate, budget, step, retry, factor,
  shifted,
}
use scanbus_service.Daemon.Listeners.Budget.{course, presses, course_over}

abbrev event : ButtonEvent
event = record {
  trigger = record {
    id = codes "scan-1";
    scanner_id = record { value = codes "mock_usb" };
    kind = TriggerKind.button 2;
  };
  session_profile = some ProfileKind.document;
  default_profile = some ProfileKind.image;
}

abbrev unassigned : ℕ → Option ProfileKind
unassigned index = none

-- Two attempts, 100 ns and 200 ns.
abbrev policy : RestartPolicy
policy = record { initial = 100; max = 400; attempts = 2 }

abbrev lost : List Happening
lost = Happening.ended ∷ Happening.restarted ∷ Happening.ended ∷ Happening.refused ∷ []

course_over_example : saturate 300 ≡ budget policy
unfolding course presses step retry delay factor shifted
course_over_example = course_over policy lost 300 [] refl refl
