-- ===== src/Tests/Scanners.antt =====
-- A network scanner that is paired and a session that sees it at an address that was another's.
use scanbus_service.Common.Maps.{lookup, insert, remove}
use scanbus_service.Common.{
  ◌≡◌, ◌≢◌, refl, true, false, none, some, List, [], ◌∷◌, Bytes, codes, beq, split, strip_prefix,
}
use scanbus_service.Common.Result.{ok, err}
use scanbus_service.Core.Id.{ScannerId}
use scanbus_service.Core.Model.{ScannerInfo}
use scanbus_service.Core.Status
use scanbus_service.Core.Status.{Status}
use scanbus_service.Daemon.Address.{
  physical_address, usb_endpoint, url_host, after, leading, trim_dots, numeric_prefix, ipv4, tokens,
  is_quad,
}
use scanbus_service.Common.Decimal.{parse_uint}
use scanbus_service.Daemon.Objects.{Zbus, add}
use scanbus_service.Daemon.Scanners.{
  Origin, Entry, Registry, Std, panicked, find_entry, address_of, sighted, observe, publish,
  update_existing, update, changed, same_info, emit_all, scanner_at, sync_buttons, add_each,
}
use scanbus_service.Daemon.Scanners.Lifetime.{promote, end_discovery}
use scanbus_service.Daemon.Scanners.Index.{address_at}
use mathlib.Core.Option
use scanbus_service.Daemon.Backends.{get}
use scanbus_service.Daemon.Store.{Restorable}
use scanbus_service.Daemon.Scanners.{Scanner1, new_scanner1}
use scanbus_service.Daemon.Scanners.Listening.{
  ensure_listening, give_up, set_status, announce_connected, is_listening,
}
use scanbus_service.Daemon.Scanners.Lifetime.{origin}
use scanbus_service.Daemon.Scanners.Calls.{or_same}
use scanbus_service.Daemon.Scanners.Restore.{Disposition, Answers, restore}
use scanbus_service.Daemon.Scanners.Race.{give_up-ensure_listening}
use scanbus_service.Daemon.Scanners.Restored.{restore_lem}
use scanbus_service.Daemon.Scanners.Run.{run-observe}
use scanbus_service.Daemon.Scanners.Sessions.{survivor, end_discovery-run}
use scanbus_service.Daemon.Scanners.Takeover.{observe_duplicate, end_discovery-observe}
use scanbus_service.Daemon.Scanners.Calls.{Call, perform, run, new_registry}

usb : physical_address (codes "brscan5:usb:001:002;dev1") ≡ codes "usb:001:002"
unfolding physical_address usb_endpoint after strip_prefix split numeric_prefix leading
usb = refl

escl : physical_address (codes "http://192.168.1.50:80/escl/") ≡ codes "192.168.1.50:80"
unfolding physical_address usb_endpoint url_host after strip_prefix leading trim_dots
escl = refl

sane : physical_address (codes "epson2:net:192.168.1.50") ≡ codes "192.168.1.50"
unfolding physical_address usb_endpoint url_host ipv4 after strip_prefix leading tokens is_quad
    split parse_uint
sane = refl

abbrev std : Std
std = record { lowered = λ a. a; same_capabilities = λ a b. true }

abbrev z : Zbus
z = record {
  at = λ path name. ok true;
  remove_named = λ path name. ok tt;
  interface = λ path name. ok tt;
  emit = λ path name. ok tt;
}

abbrev device : Bytes → Bytes → ScannerInfo
device name address = record {
  id = record { value = name };
  name = name;
  backend = codes "sane";
  address = address;
  capabilities = record {
    resolutions = [];
    color_modes = [];
    sources = [];
    duplex = false;
    buttons = record { count = 0; label_configurable = false; labels = [] };
    profiles = [];
    extra = [];
  };
  status = Status.online;
}

-- The paired scanner takes over the address at which the session saw another one.
abbrev calls : List (Zbus × Call)
calls =
    (z, Call.observed 0 (codes "sane") (device (codes "a") (codes "x")))
    ∷ (z, Call.observed 0 (codes "sane") (device (codes "b") (codes "y")))
    ∷ (z, Call.promoted (record { value = codes "b" }))
    ∷ (z, Call.observed 0 (codes "sane") (device (codes "b") (codes "x")))
    ∷ []

abbrev a : ScannerId
a = record { value = codes "a" }

abbrev b : ScannerId
b = record { value = codes "b" }

abbrev c : ScannerInfo
c = device (codes "c") (codes "x")

abbrev passing : Entry
passing = sighted std 0 (codes "sane") (device (codes "a") (codes "x"))

abbrev staying : Entry
staying = record (sighted std 0 (codes "sane") (device (codes "b") (codes "x"))) {
  origin = Origin.persistent;
}

abbrev after_calls : Registry
after_calls = run std calls (new_registry [])

looked_up :
    (find_entry a after_calls ≡ some passing)
    × (find_entry b after_calls ≡ some staying)
    × (find_entry c.id after_calls ≡ none)
    × (lookup beq (address_of std c) after_calls.owners ≡ some b)
unfolding lookup insert remove beq perform observe promote publish update_existing update changed
    same_info emit_all scanner_at sync_buttons add add_each physical_address usb_endpoint url_host
    ipv4 after leading trim_dots numeric_prefix tokens is_quad parse_uint split strip_prefix
    Status.as_str
looked_up = (refl, refl, refl, refl)

run-observe_example :
    (observe std z 0 (codes "sane") c (run std calls (new_registry []))).0 ≢ err panicked
run-observe_example = run-observe std calls [] z 0 (codes "sane") c

observe_duplicate_example :
    (observe std z 0 (codes "sane") c (run std calls (new_registry []))
      ≡ (ok tt, run std calls (new_registry [])))
    × (address_at (codes "b") (run std calls (new_registry [])).entries ≡ some (address_of std c))
observe_duplicate_example =
    observe_duplicate std calls [] z 0 (codes "sane") c b looked_up.2 looked_up.3

end_discovery-run_example :
    find_entry b (end_discovery z (run std calls (new_registry []))).1
    ≡ survivor (find_entry b (run std calls (new_registry [])))
end_discovery-run_example = end_discovery-run std calls [] z b

end_discovery-observe_example :
    let s =
      (observe std z 0 (codes "sane") c (end_discovery z (run std calls (new_registry []))).1).1 in
    (address_at (codes "b") s.entries ≡ some staying.address)
    × (address_at (codes "c") s.entries ≡ some staying.address)
end_discovery-observe_example =
    end_discovery-observe std calls [] z 0 (codes "sane") c a b passing staying (λ path name. refl)
      looked_up.0 looked_up.1 looked_up.2 refl refl refl refl

-- Its listener gave up, and a client connects it at once.
abbrev connected : Registry
connected = (ensure_listening z (ok tt) b (or_same after_calls (give_up std z b after_calls))).1

abbrev object : Scanner1
object = record (new_scanner1 (record staying.info { status = Status.error }) false) {
  connected = true;
}

served : scanner_at z b connected ≡ ok object
unfolding lookup insert remove beq perform observe promote publish update_existing update changed
    same_info emit_all scanner_at sync_buttons add add_each physical_address usb_endpoint url_host
    ipv4 after leading trim_dots numeric_prefix tokens is_quad parse_uint split strip_prefix
    Status.as_str ensure_listening give_up set_status announce_connected
served = refl

give_up-ensure_listening_example :
    let s =
      announce_connected z b false
        (ensure_listening z (ok tt) b (or_same after_calls (give_up std z b after_calls))).1 in
    (is_listening b s ≡ true)
    × (Option.map (λ o. o.connected) (lookup beq (codes "b") s.exported) ≡ some false)
    × (s.saved ≡ (b, false) ∷ (b, true) ∷ after_calls.saved)
give_up-ensure_listening_example =
    give_up-ensure_listening std z b staying after_calls object looked_up.1 served

abbrev stored : Bytes → Restorable
stored name = record { scanner = device name (codes "x"); connected = true; buttons = [] }

abbrev silent : Answers
silent = record { disposition = Disposition.paired; listening = none }

sane_named : get (codes "sane") (codes "sane" ∷ []) ≡ some (codes "sane")
unfolding get beq
sane_named = refl

restore_lem_example :
    origin b (
      restore std z
        (codes "sane" ∷ [])
        ((silent, stored (codes "a")) ∷ (silent, stored (codes "b")) ∷ [])
        (new_registry []))
    ≡ some Origin.persistent
restore_lem_example =
    restore_lem std z (codes "sane" ∷ []) ((silent, stored (codes "a")) ∷ []) [] silent
      (stored (codes "b")) (new_registry []) (codes "sane") (λ path name. refl) sane_named
