-- ===== src/Daemon/Listeners/Stamp.antt =====
-- scanbus-daemon/src/listeners.rs and jobs.rs: what a press stamps on its job.
use scanbus_service.Common.{
  ℕ, ◌≡◌, ◌↔◌, refl, Option, none, some, List, [], ◌∷◌, ltb, Bool-cases, inl, inr,
}
use scanbus_service.Common.Int.{negsuc}
use scanbus_service.Common.Optional.{or_else}
use scanbus_service.Core.Profile.{ProfileKind}
use scanbus_service.Daemon.Jobs.{button_property, max_i32}
use scanbus_service.Daemon.Listeners.{
  TriggerKind, ScanTrigger, ButtonEvent, profile, button_index, stamped,
}

-- The first choice that was made, from the most specific one.
pub first_of : List (Option ProfileKind) → Option ProfileKind
first_of [] = none
first_of (none ∷ choices) = first_of choices
first_of (some kind ∷ choices) = some kind

first_of-three : (a b c : Option ProfileKind) → or_else (or_else a b) c ≡ first_of (a ∷ b ∷ c ∷ [])
unfolding first_of
first_of-three none none none = refl
first_of-three none none (some c) = refl
first_of-three none (some b) c = refl
first_of-three (some a) b c = refl

-- The choices that a trigger leaves, from the most specific one.
unfoldable pub choices :
    TriggerKind
    → (ℕ → Option ProfileKind)
    → Option ProfileKind
    → Option ProfileKind
    → List (Option ProfileKind)
choices (TriggerKind.button index) assigned session default =
    assigned index ∷ session ∷ default ∷ []
choices (TriggerKind.push wanted) assigned session default = some wanted ∷ []

abbrev event_of : ScanTrigger → TriggerKind → Option ProfileKind → Option ProfileKind → ButtonEvent
event_of trigger kind session default = record {
  trigger = record trigger { kind = kind };
  session_profile = session;
  default_profile = default;
}

event_of-profile :
    (trigger : ScanTrigger) (kind : TriggerKind) (session default : Option ProfileKind)
    (assigned : ℕ → Option ProfileKind)
    → (stamped (event_of trigger kind session default) assigned).1
      ≡ first_of (choices kind assigned session default)
unfolding stamped button_index profile choices first_of
event_of-profile trigger (TriggerKind.button index) session default assigned =
    first_of-three (assigned index) session default
event_of-profile trigger (TriggerKind.push wanted) session default assigned = refl

event_of-host :
    (trigger : ScanTrigger) (kind : TriggerKind) (session default : Option ProfileKind)
    (assigned : ℕ → Option ProfileKind)
    → (button_property (stamped (event_of trigger kind session default) assigned).0 ≡ negsuc 0)
      ↔ (button_index (event_of trigger kind session default) ≡ none)
unfolding stamped button_property button_index
event_of-host trigger (TriggerKind.button index) session default assigned =
    elim (Bool-cases (ltb max_i32 index)) [
      | inl large ↦ rw (large) (λ e. absurd (cc), λ e. absurd (cc))
      | inr small ↦ rw (small) (λ e. absurd (cc), λ e. absurd (cc))
    ]
event_of-host trigger (TriggerKind.push wanted) session default assigned = (λ e. refl, λ e. refl)

-- A press of a key stamps the first profile that is set of the key's own, the session's and the
-- scanner's default one; a push stamps the profile it carries, whatever the host has set.
pub stamped_profile :
    (event : ButtonEvent) (assigned : ℕ → Option ProfileKind)
    → (stamped event assigned).1
      ≡ first_of (choices event.trigger.kind assigned event.session_profile event.default_profile)
stamped_profile event assigned =
    event_of-profile event.trigger event.trigger.kind event.session_profile event.default_profile
      assigned

-- A job's `Button` property is -1 exactly for what no key started, whatever the index of the key.
pub stamped_host_iff :
    (event : ButtonEvent) (assigned : ℕ → Option ProfileKind)
    → (button_property (stamped event assigned).0 ≡ negsuc 0) ↔ (button_index event ≡ none)
stamped_host_iff event assigned =
    event_of-host event.trigger event.trigger.kind event.session_profile event.default_profile
      assigned
