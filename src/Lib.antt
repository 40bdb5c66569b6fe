-- ===== src/Lib.antt =====
-- A verification library for scanbus, the D-Bus service that pairs scanners, listens to their
-- buttons and turns a key press into a scan job.
--
-- The parts of the program and the files that model them:
--
-- Common: booleans, lists, byte strings, UTF-8, decimal numbers, results, maps in key order. A
--   Rust string is the list of its bytes; an integer type is the native numbers up to its largest
--   value.
-- Core (scanbus-core): the model that backends, daemon and clients share.
--   Core/Id is model/id.rs (`ScannerId`, escaping of an address), Core/Path is path.rs (object paths
--   and their five parsers), Core/Status, Core/PairingState, Core/JobState and Core/Profile are the
--   enums of model/ and their strings, Core/Names the error of a string that names none of them,
--   Core/Value model/value.rs, Core/Progress the steps of backend/event.rs, Core/Model the records of
--   model/mod.rs, model/capabilities.rs and model/button.rs.
-- Core/Pairing is pairing.rs. `PairingMachine` is shared by callers, by the task that `pair` spawns
--   and by the relay that the task spawns for the backend's progress. `System` is what the lock
--   guards, the transition channel and the store's writes as a log, and the tasks and the calls in
--   flight. Each hold of the lock is one function, each stretch of a task between two awaits one
--   `Action` (Core/Pairing/Actions), and an interleaving is a list of actions, each enabled where it
--   stands. What the backend and the store answer is an argument of the action. Stages says which
--   moves are those of one task, Moves and Undisturbed follow one attempt in every order of its moves,
--   Durability every interleaving, Calls the methods, Unpair the method `unpair` when no other call comes
--   in between, and Stuck and Orphan one interleaving each, of `cancel` and of `pair`, with a run.
-- Daemon/Options is scanbus-daemon/src/profiles/options.rs: the tables of options, `check`,
--   `validate`, the readers, and the published schema (Daemon/Options/Schema).
-- Daemon/Jobs is scanbus-daemon/src/jobs.rs and dbus/job.rs: `run`, from the fetched page stream to
--   the end of the job object, with all that reaches the bus as a list of signals. A `Scan` holds what
--   the backend, the object server and the profile processor answer; the answer of the processor's
--   channel stands with each page. Daemon/Jobs/Object is `Job1` with `set_page_count` and `transition`.
-- Daemon/Listeners is scanbus-daemon/src/listeners.rs: the profile of a press, the delays of
--   `RestartPolicy` in nanoseconds, and `run` as a step function on what happens to the task.
-- Daemon/Profiles is scanbus-daemon/src/profiles.rs: the options of the registry, how they are set,
--   written and resolved. A `BTreeMap` is the list of its entries in the order of their keys.
-- Daemon/Store is scanbus-daemon/src/store.rs: `JsonPairingStore`, its state in memory beside what the
--   file holds. serde_json is a parameter, what the file system answers an argument of each call.
--   Daemon/Store/Memory is `MemoryPairingStore`.
-- Daemon/Objects is scanbus-daemon/src/dbus/objects.rs: the tree of exported objects. What zbus answers
--   is an argument (`Zbus`), and the paths stand in their order. Objects/Subtree is what a removal leaves.
-- Daemon/Address is scanbus-daemon/src/scanners/address.rs, the key under which one device is one
--   object; `trim` and `to_lowercase` come before it and are an argument. Daemon/Backends is
--   scanbus-daemon/src/backends.rs.
-- Daemon/Scanners is scanbus-daemon/src/scanners.rs, with `update` of dbus/scanner.rs: `Registry` is what
--   the lock guards, the tree, what each object holds, and the writes of `Connected`. The file itself is a
--   sighting and its update, Listening the listeners and `Connected`, Lifetime what comes to stay and what
--   goes, Restore the start of the daemon. Calls lists the holds of the lock, `run` makes a sequence of
--   them. Index, Sound, Steady and Run keep the index of the addresses, Sessions is the end of a session,
--   Takeover an address that two scanners claim, Race a `Connect` in the middle of `listener_failed`, and
--   Restored the outcome of the restore.
-- Daemon/Discovery is scanbus-daemon/src/discovery.rs: who holds the session, its task step by step, and
--   the calls of others between any two steps. A call that stops the task keeps the lock until the task
--   is over (`stopping`).
-- Brother/Fields, Function, Frame and Event (scanbus-backend-brother/src/skey): Fields is fields.rs,
--   Function is function.rs, Frame and Event are event.rs, from a datagram to a key press. An IPv4
--   address is its four bytes.
-- Brother/Snmp is skey/snmp.rs: the codec of SNMP messages. A `Reader` is the bytes that it has left,
--   and a function that reads returns what it read with what is left; a function that encodes returns
--   the bytes that it appends. Snmp/Length, Integer and Oid are the parts, Snmp/Message the whole,
--   with its round trip, the prefixes, the end of the loop and the sizes in child modules.
-- Brother/Register is skey/register.rs: names, registrations, their string, and the request that
--   carries it. Texts are characters, a lease is in nanoseconds.
-- Brother/Registrar is scanbus-backend-brother/src/registrar.rs: the delays, the name on the panel,
--   one exchange over UDP, a round of registrations, and `start` and `stop` (Registrar/Calls). What
--   the routing table and the device answer are arguments.
-- Client/Select is scanbus-client/src/select.rs: the object that a selector names. `to_lowercase` is
--   an argument.
-- Cli/Duration is scanbus-cli/src/duration.rs.
-- Tests applies the theorems to concrete inputs.
--
-- A Brother datagram becomes a press of a button; a press goes from Daemon/Listeners (`stamped`) to
-- Daemon/Jobs (`Scan`); a job's object has a path of Core/Path, a state of Core/JobState and a
-- profile of Core/Profile. The registrar sends what Brother/Register builds and Brother/Snmp encodes,
-- and a selector names an object by the id of Core/Id or the path of Core/Path.
--
-- Every loop is recursion on a list or on a number. Two take fuel: the groups of a base-128 arc, of
-- which four are enough behind the lowest for a `u32`, and the varbinds of a message, for which the
-- length of the list is enough since each takes at least a byte; there the decoder would return
-- `endless`, which is no error of the program.
--
-- Not modelled: the drop of a `PairingMachine`, the D-Bus object server itself, the interfaces
-- that answer clients, the watch of bus names, the replay of a restored scanner's assignments,
-- the encoders of images and PDF, the rest of the vendor backends, of the client library and of
-- the command line, and the GUI. The abort of a refresh task between two registrations is not
-- looked at, nor a socket that cannot be opened. A signal of a job is its emission; whether the
-- bus delivers it is not looked at, as the daemon only logs a failure. The pixels of a page and
-- the timestamps pass through the modelled code unread.

pub mod Common
pub mod Core
pub mod Brother
pub mod Cli
pub mod Client
pub mod Daemon
pub mod Tests
