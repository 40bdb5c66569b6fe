-- ===== src/Tests/Store.antt =====
-- A pairing that is stored, read again, and forgotten.
use scanbus_service.Common.{
  ◌≡◌, refl, true, none, some, List, [], ◌∷◌, Bytes, codes, beq, false, ◌==◌, if◌then◌else◌,
}
use scanbus_service.Common.Result.{Result, ok, err, ok-injective}
use scanbus_service.Core.Id.{ScannerId}
use scanbus_service.Core.Model.{ScannerInfo}
use scanbus_service.Core.Status.{Status}
use scanbus_service.Daemon.Profiles.{lookup, insert}
use scanbus_service.Daemon.Store.{
  Answer, cannot_replace, PersistedStore, PersistedScanner, Writing, JsonPairingStore, new_scanner,
  find_scanner, replaced, flush_locked, forget, save_paired, save_connected, with_path, load,
}
use scanbus_service.Daemon.Store.Reopened.{
  paired, connection, call, Calls, done, then_call, with_path_again,
}
use scanbus_service.Daemon.Store.Memory.{
  in_memory, pairing, forgetting, Change, all_remembered, all_written, in_memory-all_written,
}
use scanbus_service.Daemon.Store.Forgotten.{removed, forget-forget}

abbrev mfc : ScannerId
mfc = record { value = codes "brother_mfc" }

abbrev scanner : ScannerInfo
scanner = record {
  id = mfc;
  name = codes "MFC";
  backend = codes "brother";
  address = codes "mfc";
  capabilities = record {
    resolutions = [];
    color_modes = [];
    sources = [];
    duplex = false;
    buttons = record { count = 0; label_configurable = false; labels = [] };
    profiles = [];
    extra = [];
  };
  status = Status.online;
}

abbrev entry : PersistedScanner
entry = new_scanner scanner

abbrev with_entry : PersistedScanner → PersistedStore
with_entry e = record { version = 1; scanners = (codes "brother_mfc", e) ∷ [] }

abbrev flag : List (Bytes × PersistedScanner) → Bytes
flag [] = []
flag ((key, e) ∷ entries) = if e.connected then 1 ∷ key else 0 ∷ key

abbrev to_vec : PersistedStore → Result Bytes Bytes
to_vec s = ok (flag s.scanners)

abbrev from_slice : Bytes → Result PersistedStore Bytes
from_slice [] = err (codes "EOF")
from_slice (c ∷ key) = ok (with_entry (record entry { connected = c == 1 }))

abbrev renaming : Answer → Writing
renaming answer = record {
  has_parent = true;
  dir_exists = false;
  create_dir = ok tt;
  set_mode = ok tt;
  open_tmp = ok tt;
  write_all = ok tt;
  sync_tmp = ok tt;
  rename = answer;
  open_dir = ok tt;
  sync_dir = ok tt;
}

abbrev first : JsonPairingStore
first = record { state = with_entry entry; file = some (0 ∷ codes "brother_mfc") }

abbrev last : JsonPairingStore
last = record {
  state = with_entry (record entry { connected = true });
  file = some (1 ∷ codes "brother_mfc");
}

begun :
    call to_vec (renaming (ok tt)) (paired scanner) (with_path from_slice (ok tt) (ok tt) none)
    ≡ (ok tt, first)
unfolding save_paired flush_locked replaced with_path load lookup insert beq
begun = refl

connecting : call to_vec (renaming (ok tt)) (connection mfc true) first ≡ (ok tt, last)
unfolding save_connected flush_locked replaced lookup insert beq
connecting = refl

both : Calls to_vec (with_path from_slice (ok tt) (ok tt) none) last
both =
    then_call (renaming (ok tt)) (connection mfc true)
      (then_call (renaming (ok tt)) (paired scanner) done begun) connecting

reads : (bytes : Bytes) → to_vec last.state ≡ ok bytes → from_slice bytes ≡ ok last.state
reads bytes h = rw (← ok-injective h) refl

with_path_again_example : with_path from_slice (ok tt) (ok tt) last.file ≡ last
with_path_again_example = with_path_again to_vec from_slice (ok tt) (ok tt) last both reads

abbrev full : Writing
full = renaming (err (codes "disk full"))

found : find_scanner mfc first ≡ some entry
unfolding lookup beq
found = refl

unwritten :
    replaced to_vec full (removed mfc first).state ≡ err (cannot_replace (codes "disk full"))
unfolding replaced
unwritten = refl

forget-forget_example :
    ((forget to_vec full mfc first).0 ≡ err (cannot_replace (codes "disk full")))
    × ((forget to_vec (renaming (ok tt)) mfc (forget to_vec full mfc first).1).0 ≡ ok tt)
    × ((forget to_vec (renaming (ok tt)) mfc (forget to_vec full mfc first).1).1.file ≡ first.file)
forget-forget_example =
    forget-forget to_vec full (renaming (ok tt)) mfc first entry
      (cannot_replace (codes "disk full")) found unwritten

abbrev changes : List (Writing × Change)
changes =
    (full, pairing scanner) ∷ (renaming (ok tt), pairing scanner) ∷ (full, forgetting mfc) ∷ []

in_memory-all_written_example :
    in_memory (all_written to_vec changes last) ≡ all_remembered changes (in_memory last)
in_memory-all_written_example = in_memory-all_written to_vec changes last
