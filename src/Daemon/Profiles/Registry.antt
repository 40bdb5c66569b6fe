-- ===== src/Daemon/Profiles/Registry.antt =====
-- scanbus-daemon/src/profiles.rs: the options that are set, stored and resolved.

use scanbus_service.Common.{
  ℕ, ◌≡◌, refl, ap, sym, ◌∙◌, true, Option, none, some, List, [], ◌∷◌, Bytes, beq, beq→eq, beq_refl,
  ◌==◌, if◌then◌else◌, arith, Bool-cases, inl, inr,
}
use scanbus_service.Common.Optional.{or_else}
use scanbus_service.Common.Result.{Result, ok, err, Result-cases}
use scanbus_service.Core.Profile.{ProfileKind}
use scanbus_service.Core.Value.{Dict}
use scanbus_service.Daemon.Options.{OptionError, validate}
use scanbus_service.Daemon.Profiles.{
  lookup, insert, same_kind, kind_before, text_before, rank, Stored, ProfileRegistry,
  with_store_path, options_for, invalid, not_persisted, persisted, set_options, or_empty,
  resolve_options,
}
use scanbus_service.Daemon.Profiles.Maps.{lookup-insert, lookup-merge, IsMap}

same_kind_refl : (k : ProfileKind) → same_kind k k ≡ true
same_kind_refl ProfileKind.image = refl
same_kind_refl ProfileKind.document = refl
same_kind_refl ProfileKind.email = refl
same_kind_refl ProfileKind.ocr = refl

abbrev unranked : ℕ → ProfileKind
unranked n =
    if n == 0
    then ProfileKind.image
    else if n == 1
    then ProfileKind.document
    else if n == 2
    then ProfileKind.email
    else ProfileKind.ocr

unranked-rank : (k : ProfileKind) → unranked (rank k) ≡ k
unranked-rank ProfileKind.image = refl
unranked-rank ProfileKind.document = refl
unranked-rank ProfileKind.email = refl
unranked-rank ProfileKind.ocr = refl

same_kind→eq : (k l : ProfileKind) → same_kind k l ≡ true → k ≡ l
same_kind→eq k l h =
    let same_rank : rank k ≡ rank l = ground arith in
    sym (unranked-rank k) ∙ ap unranked same_rank ∙ unranked-rank l

-- The map is kept whatever the writing of the file answers.
persisted_options :
    (write : Result (Unit {0}) Bytes) (r : ProfileRegistry)
    → (persisted write r).1.options ≡ r.options
persisted_options write r = elim (Bool-cases r.has_path) [
  | inr memory_only ↦ rw (memory_only) refl
  | inl on_disk ↦ elim (Result-cases write) [
    | inl (_, e) ↦ rw (on_disk, e) refl
    | inr (_, e) ↦ rw (on_disk, e) refl
  ]
]

set_options_options :
    (write : Result (Unit {0}) Bytes) (kind : ProfileKind) (options : Dict) (r : ProfileRegistry)
    → validate kind options ≡ ok tt
    → (set_options write kind options r).1.options
      ≡ insert same_kind kind_before kind options r.options
unfolding set_options
set_options_options write kind options r h = rw (h) (persisted_options write _)

set_options_refused :
    (write : Result (Unit {0}) Bytes) (kind : ProfileKind) (options : Dict) (r : ProfileRegistry)
    (e : OptionError)
    → validate kind options ≡ err e
    → set_options write kind options r ≡ (err (invalid e), r)
unfolding set_options
set_options_refused write kind options r e h = rw (h) refl

-- What is found for a profile after its valid options are set.
options_for-set_options :
    (write : Result (Unit {0}) Bytes) (kind other : ProfileKind) (options : Dict)
    (r : ProfileRegistry)
    → validate kind options ≡ ok tt
    → options_for (set_options write kind options r).1 other
      ≡ (if same_kind other kind then some options else options_for r other)
options_for-set_options write kind other options r h =
    ap (lookup same_kind other) (set_options_options write kind options r h)
    ∙ lookup-insert same_kind kind_before same_kind_refl same_kind→eq other kind options r.options

-- A call of `set_options`, with what the writing of the file answers.
pub record Change : Type 0 where
  pub write : Result (Unit {0}) Bytes
  pub kind : ProfileKind
  pub options : Dict

abbrev pub changed : List Change → ProfileRegistry → ProfileRegistry
changed [] r = r
changed (c ∷ changes) r = changed changes (set_options c.write c.kind c.options r).1

-- The options that a call sets for a profile: its own, if it is for that profile and they pass.
abbrev pub valid_for : ProfileKind → Change → Option Dict
valid_for kind c =
    if same_kind kind c.kind
    then (elim (validate c.kind c.options) [ err _ ↦ none | ok _ ↦ some c.options ])
    else none

-- The options of the last call for a profile that pass its validation.
abbrev pub last_valid : ProfileKind → List Change → Option Dict
last_valid kind [] = none
last_valid kind (c ∷ changes) = or_else (last_valid kind changes) (valid_for kind c)

options_for-change :
    (c : Change) (kind : ProfileKind) (r : ProfileRegistry)
    → options_for (set_options c.write c.kind c.options r).1 kind
      ≡ or_else (valid_for kind c) (options_for r kind)
options_for-change c kind r = elim (Result-cases (validate c.kind c.options)) [
  | inr (e, refused) ↦ elim (Bool-cases (same_kind kind c.kind)) [
    | inl here ↦
        rw (set_options_refused c.write c.kind c.options r e refused, valid_for, here, refused) refl
    | inr other ↦
        rw (set_options_refused c.write c.kind c.options r e refused, valid_for, other) refl
  ]
  | inl (_, valid) ↦
      options_for-set_options c.write c.kind kind c.options r valid
      ∙ (elim (Bool-cases (same_kind kind c.kind)) [
        | inl here ↦ rw (valid_for, here, valid) refl
        | inr other ↦ rw (valid_for, other) refl
      ])
]

or_else_assoc : (a b c : Option Dict) → or_else a (or_else b c) ≡ or_else (or_else a b) c
or_else_assoc none b c = refl
or_else_assoc (some x) b c = refl

-- However often options are set, for whatever profiles, in a registry with a file or without, and whether
-- or not the file can be written, what the registry has in memory for a profile are the options of the last
-- call for it that pass its validation, or, without such a call, what it had before.
pub options_for-changed :
    (changes : List Change) (r : ProfileRegistry) (kind : ProfileKind)
    → options_for (changed changes r) kind ≡ or_else (last_valid kind changes) (options_for r kind)
options_for-changed [] r kind = refl
options_for-changed (c ∷ changes) r kind =
    options_for-changed changes (set_options c.write c.kind c.options r).1 kind
    ∙ ap (or_else (last_valid kind changes)) (options_for-change c kind r)
    ∙ or_else_assoc (last_valid kind changes) (valid_for kind c) (options_for r kind)

-- If the file cannot be written, `set_options` reports an error, and the registry nevertheless answers
-- with the new options from then on, while the file keeps the old ones.
pub set_options_unwritten :
    (kind : ProfileKind) (options : Dict) (reason : Bytes) (file : Option Stored)
    → validate kind options ≡ ok tt
    → ((set_options (err reason) kind options (with_store_path file)).0
        ≡ err (not_persisted reason))
      × (options_for (set_options (err reason) kind options (with_store_path file)).1 kind
          ≡ some options)
      × ((set_options (err reason) kind options (with_store_path file)).1.file ≡ file)
unfolding set_options
set_options_unwritten kind options reason file h = (
  rw (h) refl,
  options_for-set_options (err reason) kind kind options (with_store_path file) h
      ∙ ap (λ b. if b then some options else options_for (with_store_path file) kind)
          (same_kind_refl kind),
  rw (h) refl,
)

-- The options of a scan: a key of the button's options has the button's value, even a blank output
-- folder, and every other key what is stored for the profile.
pub resolve_options_lem :
    (r : ProfileRegistry) (profile : ProfileKind) (button_options : Dict) (key : Bytes)
    → IsMap beq button_options
    → lookup beq key (resolve_options r (some profile) button_options)
      ≡ or_else (lookup beq key button_options) (lookup beq key (or_empty (options_for r profile)))
unfolding resolve_options
resolve_options_lem r profile button_options key h =
    lookup-merge beq text_before beq_refl beq→eq key (or_empty (options_for r profile))
      button_options h
