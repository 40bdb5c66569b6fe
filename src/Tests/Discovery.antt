-- ===== src/Tests/Discovery.antt =====
-- A client starts discovery, a scanner is found and paired, and the client leaves.
use scanbus_service.Common.{
  ◌≡◌, refl, true, false, Option, none, some, List, [], ◌∷◌, Bytes, codes, beq, split, strip_prefix,
}
use scanbus_service.Common.Decimal.{parse_uint}
use scanbus_service.Common.Maps.{lookup, insert, remove}
use scanbus_service.Common.Result.{ok}
use scanbus_service.Core.Id.{ScannerId}
use scanbus_service.Core.Model.{ScannerInfo}
use scanbus_service.Core.Status
use scanbus_service.Core.Status.{Status}
use scanbus_service.Daemon.Address.{
  physical_address, usb_endpoint, url_host, after, leading, trim_dots, numeric_prefix, ipv4, tokens,
  is_quad,
}
use scanbus_service.Daemon.Backends.{RankedBackend, select, ranked_from}
use scanbus_service.Daemon.Objects.{Zbus, add, remove_subtree, take_all, descendants}
use scanbus_service.Daemon.Scanners.{
  Origin, Entry, Std, find_entry, sighted, observe, publish, add_each, scanner_at,
}
use scanbus_service.Daemon.Scanners.Listening.{set_status}
use scanbus_service.Daemon.Scanners.Lifetime.{
  promote, end_discovery, transient, sweep, mark_unseen_offline, mark_each, unseen,
}
use scanbus_service.Daemon.Scanners.Calls.{Call, perform}
use scanbus_service.Daemon.Discovery.{
  Probe, Step, Action, System, start, release, task_step, act, after_actions, new_system,
  is_running, is_nobody,
}
use scanbus_service.Daemon.Discovery.Quiet.{is_quiet}
use scanbus_service.Daemon.Discovery.Ended.{after_actions-is_quiet, after_actions-is_running}

abbrev std : Std
std = record { lowered = λ a. a; same_capabilities = λ a b. true }

abbrev z : Zbus
z = record {
  at = λ path name. ok true;
  remove_named = λ path name. ok tt;
  interface = λ path name. ok tt;
  emit = λ path name. ok tt;
}

abbrev device : Bytes → ScannerInfo
device name = record {
  id = record { value = name };
  name = name;
  backend = codes "sane";
  address = name;
  capabilities = record {
    resolutions = [];
    color_modes = [];
    sources = [];
    duplex = false;
    buttons = record { count = 0; label_configurable = false; labels = [] };
    profiles = [];
    extra = [];
  };
  status = Status.online;
}

abbrev known : List Bytes
known = codes "sane" ∷ []

abbrev sane : RankedBackend
sane = record { rank = 0; backend = codes "sane" }

abbrev actions : List Action
actions =
    Action.started (codes ":1.7") none
    ∷ Action.worked z
        (Step.answered sane (Probe.found (device (codes "a") ∷ device (codes "b") ∷ [])))
    ∷ Action.worked z Step.published
    ∷ Action.worked z Step.published
    ∷ Action.called z (Call.promoted (record { value = codes "b" }))
    ∷ Action.worked z Step.published
    ∷ Action.worked z Step.joined
    ∷ Action.worked z (Step.looked false)
    ∷ Action.released (codes ":1.7")
    ∷ Action.worked z Step.heard
    ∷ Action.swept z
    ∷ []

abbrev or_new : Option System → System
or_new none = new_system []
or_new (some s) = s

abbrev left : System
left = or_new (after_actions std known actions (new_system []))

abbrev b : ScannerId
b = record { value = codes "b" }

abbrev paired : Entry
paired =
    unseen
      (record (sighted std 0 (codes "sane") (device (codes "b"))) { origin = Origin.persistent })

course :
    (after_actions std known actions (new_system []) ≡ some left)
    × (left.stopping ≡ false)
    × (is_running left ≡ false)
    × (is_nobody left.owners ≡ true)
    × (find_entry b left.registry ≡ some paired)
unfolding act start select ranked_from release task_step lookup insert remove beq perform observe
    promote publish add add_each physical_address usb_endpoint url_host ipv4 after leading trim_dots
    numeric_prefix tokens is_quad parse_uint split strip_prefix mark_unseen_offline mark_each
    set_status scanner_at end_discovery transient sweep remove_subtree take_all descendants
    Status.as_str
course = (refl, refl, refl, refl, refl)

after_actions-is_quiet_example : is_quiet paired ≡ true
after_actions-is_quiet_example =
    after_actions-is_quiet std known actions [] left b paired course.0 course.1 course.2 course.4

after_actions-is_running_example : is_running left ≡ false
after_actions-is_running_example =
    after_actions-is_running std known actions [] left course.0 course.1 course.3
