-- ===== src/Cli/Duration.antt =====
-- scanbus-cli/src/duration.rs: the one number format the command line reads. A text is a list of
-- characters, by code point.
pub mod Units
use mathlib.Core.Option
use scanbus_service.Common.{
  ℕ, zero, suc, ◌+◌, ◌*◌, ◌≤◌, ◌<◌, ◌≡◌, ◌≢◌, ◌⊎◌, inl, inr, refl, ap, sym, ◌∙◌, Bool, true, false,
  ◌&&◌, ◌||◌, not, Option, none, some, List, [], ◌∷◌, ◌++◌, Bytes, codes, beq, leb, ltb, ◌==◌,
  if◌then◌else◌, arith, append_assoc,
}
use scanbus_service.Common.Decimal.{
  parse_uint, print, max_u64, parse-print, print-cons, print-IsDigit, IsDigit,
}
use scanbus_service.Common.Optional.{or_else}
use scanbus_service.Common.Result.{Result, ok, err}

-- `char::is_whitespace`
abbrev pub is_whitespace : ℕ → Bool
is_whitespace c =
    leb 0x09 c && leb c 0x0d
    || c == 0x20
    || c == 0x85
    || c == 0xa0
    || c == 0x1680
    || leb 0x2000 c && leb c 0x200a
    || c == 0x2028
    || c == 0x2029
    || c == 0x202f
    || c == 0x205f
    || c == 0x3000

unfoldable pub trim_start : Bytes → Bytes
trim_start [] = []
trim_start (c ∷ s) = let rest = trim_start s in if is_whitespace c then rest else c ∷ s

-- The text without its trailing whitespace.
unfoldable pub trim_end : Bytes → Bytes
trim_end [] = []
trim_end (c ∷ s) = elim (trim_end s) [
  | [] ↦ (if is_whitespace c then [] else c ∷ [])
  | d ∷ t ↦ c ∷ d ∷ t
]

-- `trim`
abbrev pub trim : Bytes → Bytes
trim s = trim_end (trim_start s)

-- `strip_suffix`
unfoldable pub strip_suffix : Bytes → Bytes → Option Bytes
strip_suffix suffix [] = if beq [] suffix then some [] else none
strip_suffix suffix (c ∷ s) =
    let rest = strip_suffix suffix s in
    if beq (c ∷ s) suffix then some [] else Option.map (λ front. c ∷ front) rest

-- `UNITS`
abbrev pub units : List (Bytes × ℕ)
units = (codes "ms", 1) ∷ (codes "s", 1000) ∷ (codes "m", 60000) ∷ (codes "h", 3600000) ∷ []

-- `find_map` over the units.
unfoldable pub with_unit : List (Bytes × ℕ) → Bytes → Option (Bytes × ℕ)
with_unit [] text = none
with_unit ((suffix, millis) ∷ rest) text =
    or_else (Option.map (λ front. (front, millis)) (strip_suffix suffix text)) (with_unit rest text)

-- The two messages of the error.
pub data DurationError : Type 0 where
  not_a_duration : Bytes → DurationError
  too_long_duration : Bytes → DurationError

abbrev pub or_seconds : Bytes → Option (Bytes × ℕ) → Bytes × ℕ
or_seconds text none = (text, 1000)
or_seconds text (some parts) = parts

abbrev pub in_millis : Bytes → ℕ → Option ℕ → Result ℕ DurationError
in_millis text millis none = err (not_a_duration text)
in_millis text millis (some value) =
    if ltb max_u64 (value * millis) then err (too_long_duration text) else ok (value * millis)

-- `parse_duration`, in milliseconds.
unfoldable pub parse_duration : Bytes → Result ℕ DurationError
parse_duration given =
    let text = trim given in
    let parts = or_seconds text (with_unit units text) in
    in_millis text parts.1 (parse_uint max_u64 (trim parts.0))
