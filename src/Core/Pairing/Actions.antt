-- ===== src/Core/Pairing/Actions.antt =====
-- scanbus-core/src/pairing.rs: the moves of the callers, of `run` and of its relay, as actions that
-- are enabled or not, and their interleavings as lists of actions.
use scanbus_service.Common.{
  ℕ, Bool, true, false, Option, none, some, List, [], ◌∷◌, ◌++◌, Bytes, ltb, if◌then◌else◌, length,
}
use scanbus_service.Common.Result.{Result, ok, err}
use scanbus_service.Common.Optional.{◌>>=◌}
use scanbus_service.Core.PairingState.{PairingState}
use scanbus_service.Core.Progress.{Progress, pairing_state}
use scanbus_service.Core.Pairing.{
  Event, stored, forgot, Phase, Relay, Call, System, update, progress_buffer, pair, cancel,
  set_scanner, restore_paired, restore_failed, unpair_begin, unpair_clear, complete, finish,
  relay_state, relay_after, set_phase, set_call, emit,
}

pub data Action (S : Type 0) : Type 0 where
  -- the methods
  pair_call : Action S
  cancel_call : Action S
  set_scanner_call : S → Action S
  unpair_call : ℕ → Action S
  restore_paired_call : ℕ → Action S
  restore_failed_call : ℕ → Bytes → Action S
  -- the later parts of a call
  store_forget : ℕ → Result (Unit {0}) Bytes → Action S
  clear : ℕ → Action S
  read_state : ℕ → Action S
  reply : ℕ → Action S
  -- what the backend and the store answer to `run`
  report : ℕ → Progress → Action S
  install_return : ℕ → Result (Unit {0}) Bytes → Action S
  listen_return : ℕ → Result (Unit {0}) Bytes → Action S
  save_return : ℕ → Result (Unit {0}) Bytes → Action S
  -- the moves of `run` itself
  join : ℕ → Action S
  complete_run : ℕ → Action S
  fail_run : ℕ → Action S
  announce : ℕ → Action S
  drop_run : ℕ → Action S
  -- the moves of the relay
  relay_receive : ℕ → Action S
  relay_send : ℕ → Action S
  relay_close : ℕ → Action S

-- `Err` ends the run in `finish`; `Ok` goes on to the next await.
abbrev pub after : Result (Unit {0}) Bytes → Phase → Phase
after (ok _) p = p
after (err m) p = Phase.failing m

abbrev pub saving_log : Result (Unit {0}) Bytes → List Event → List Event
saving_log (ok _) l = stored ∷ l
saving_log (err m) l = l

-- A dropped or returned `ensure_installed` has dropped its sender.
abbrev pub sender_open : Phase → Bool
sender_open Phase.installing = true
sender_open _ = false

module _ {S : Type 0} where
  -- A task that has been aborted is not polled again.
  abbrev awake : System S → ℕ → System S → Option (System S)
  awake s i t = if (s.tasks i).aborted then none else some t

  set_queue : ℕ → List Progress → Relay → System S → System S
  set_queue i q r s = record s {
    tasks = update s.tasks i (record (s.tasks i) { queue = q; relay = r });
  }

  start_call : ℕ → System S × Call → System S → Option (System S)
  start_call i r s = elim (s.calls i) [ Call.absent ↦ some (set_call i r) | _ ↦ none ]

  unfoldable pub perform : Action S → System S → Option (System S)
  unfolding set_queue start_call relay_state
  perform pair_call s = some (pair s).0
  perform cancel_call s = some (cancel s)
  perform (set_scanner_call x) s = some (set_scanner x s).0
  perform (unpair_call i) s = start_call i (unpair_begin s) s
  perform (restore_paired_call i) s = start_call i (restore_paired s) s
  perform (restore_failed_call i m) s = start_call i (restore_failed m s) s
  perform (store_forget i (ok u)) s = elim (s.calls i) [
    | Call.stopping ↦ some (set_call i (record s { log = forgot ∷ s.log }, Call.forgotten))
    | _ ↦ none
  ]
  perform (store_forget i (err m)) s = elim (s.calls i) [
    | Call.stopping ↦ some (set_call i (s, Call.returned))
    | _ ↦ none
  ]
  perform (clear i) s = elim (s.calls i) [
    | Call.forgotten ↦ some (set_call i (unpair_clear s))
    | _ ↦ none
  ]
  perform (read_state i) s = elim (s.calls i) [
    | Call.reading ↦ some (set_call i (s, Call.replying s.state))
    | _ ↦ none
  ]
  perform (reply i) s = elim (s.calls i) [
    | Call.replying st ↦ some (set_call i (emit st s, Call.returned))
    | _ ↦ none
  ]
  perform (report i p) s = elim (s.tasks i).phase [
    | Phase.installing ↦
        if ltb (length (s.tasks i).queue) progress_buffer
        then awake s i (set_queue i ((s.tasks i).queue ++ p ∷ []) (s.tasks i).relay s)
        else none
    | _ ↦ none
  ]
  perform (install_return i r) s = elim (s.tasks i).phase [
    | Phase.installing ↦ awake s i (set_phase i (Phase.draining r) s)
    | _ ↦ none
  ]
  perform (listen_return i r) s = elim (s.tasks i).phase [
    | Phase.listening ↦ awake s i (set_phase i (after r Phase.saving) s)
    | _ ↦ none
  ]
  perform (save_return i r) s = elim (s.tasks i).phase [
    | Phase.saving ↦
        awake s i (set_phase i (after r Phase.saved) (record s { log = saving_log r s.log }))
    | _ ↦ none
  ]
  perform (join i) s = elim (s.tasks i).relay [
    | Relay.closed ↦ elim (s.tasks i).phase [
      | Phase.draining r ↦ awake s i (set_phase i (after r Phase.listening) s)
      | _ ↦ none
    ]
    | _ ↦ none
  ]
  perform (complete_run i) s = elim (s.tasks i).phase [
    | Phase.saved ↦ some (set_phase i (Phase.announcing PairingState.done) (complete s))
    | _ ↦ none
  ]
  perform (fail_run i) s = elim (s.tasks i).phase [
    | Phase.failing m ↦
        some (
          set_phase i (Phase.announcing (PairingState.failed m)) (finish (PairingState.failed m) s))
    | _ ↦ none
  ]
  perform (announce i) s = elim (s.tasks i).phase [
    | Phase.announcing st ↦ some (set_phase i Phase.ended (emit st s))
    | _ ↦ none
  ]
  perform (drop_run i) s = elim (s.tasks i).phase [
    | Phase.installing ↦ if (s.tasks i).aborted then some (set_phase i Phase.ended s) else none
    | Phase.draining r ↦ if (s.tasks i).aborted then some (set_phase i Phase.ended s) else none
    | Phase.listening ↦ if (s.tasks i).aborted then some (set_phase i Phase.ended s) else none
    | Phase.saving ↦ if (s.tasks i).aborted then some (set_phase i Phase.ended s) else none
    | _ ↦ none
  ]
  perform (relay_receive i) s = elim (s.tasks i).relay [
    | Relay.receiving ↦ elim (s.tasks i).queue [
      | [] ↦ none
      | p ∷ q ↦
          some (relay_state (pairing_state p) (set_queue i q (relay_after (pairing_state p)) s))
    ]
    | _ ↦ none
  ]
  perform (relay_send i) s = elim (s.tasks i).relay [
    | Relay.sending st ↦ some (set_queue i (s.tasks i).queue Relay.receiving (emit st s))
    | _ ↦ none
  ]
  perform (relay_close i) s = elim (s.tasks i).relay [
    | Relay.receiving ↦ elim (s.tasks i).queue [
      | [] ↦ if sender_open (s.tasks i).phase then none else some (set_queue i [] Relay.closed s)
      | _ ↦ none
    ]
    | _ ↦ none
  ]

  -- A schedule: every action of the list in turn, each enabled where it stands.
  unfoldable pub run : List (Action S) → System S → Option (System S)
  run [] s = some s
  run (a ∷ rest) s = do t ← perform a s; run rest t
