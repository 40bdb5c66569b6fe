-- ===== src/Cli/Duration/Units.antt =====
-- scanbus-cli/src/duration.rs: a number with each of its units.
use mathlib.Core.Path.{subst}
use scanbus_service.Common.{
  ℕ, ◌*◌, ◌≤◌, ◌<◌, ◌≡◌, ◌≢◌, refl, ap, false, none, some, [], ◌∷◌, ◌++◌, Bytes, Lacks, All,
  All-append, All-imp, codes, beq, beq→eq, beq_refl, ltb, length, length-append, if◌then◌else◌,
  arith, Bool-cases, inl, inr, append-nil,
}
use scanbus_service.Common.Decimal.{
  print, max_u64, parse-print, print-IsDigit, print-Lacks, IsDigit,
}
use scanbus_service.Common.Result.{ok, err}
use scanbus_service.Cli.Duration.{
  too_long_duration, is_whitespace, trim_start, trim_end, trim, strip_suffix, units, with_unit,
  or_seconds, parse_duration,
}

-- The units the help of the command line names.
pub data TimeUnit : Type 0 where
  milliseconds seconds minutes hours bare : TimeUnit

abbrev pub suffix_of : TimeUnit → Bytes
suffix_of milliseconds = codes "ms"
suffix_of seconds = codes "s"
suffix_of minutes = codes "m"
suffix_of hours = codes "h"
suffix_of bare = []

abbrev pub millis_of : TimeUnit → ℕ
millis_of milliseconds = 1
millis_of seconds = 1000
millis_of minutes = 60 * 1000
millis_of hours = 60 * 60 * 1000
millis_of bare = 1000

strip_suffix-append : (suffix front : Bytes) → strip_suffix suffix (front ++ suffix) ≡ some front
unfolding strip_suffix
strip_suffix-append [] [] = unfold beq in refl
strip_suffix-append (c ∷ suffix) [] = rw (beq_refl (c ∷ suffix)) refl
strip_suffix-append suffix (c ∷ front) = elim (Bool-cases (beq (c ∷ front ++ suffix) suffix)) [
  | inl same ↦ absurd (
      omega
        (arith, ap length (beq→eq (c ∷ front ++ suffix) suffix same), length-append front suffix))
  | inr other ↦ rw (other, strip_suffix-append suffix front) refl
]

strip_suffix-Lacks :
    (c : ℕ) (suffix text : Bytes)
    → Lacks c text
    → (Lacks c suffix → ⊥)
    → strip_suffix suffix text ≡ none
unfolding strip_suffix
strip_suffix-Lacks c [] [] h k = absurd (k tt)
strip_suffix-Lacks c (d ∷ suffix) [] h k = unfold beq in refl
strip_suffix-Lacks c suffix (d ∷ text) (hd, h) k = elim (Bool-cases (beq (d ∷ text) suffix)) [
  | inl same ↦
      let lacks : Lacks c (d ∷ text) = (hd, h) in
      absurd (k (subst (Lacks c) (beq→eq (d ∷ text) suffix same) lacks))
  | inr other ↦ rw (other, strip_suffix-Lacks c suffix text h k) refl
]

abbrev IsInk : ℕ → Type 0
IsInk c = is_whitespace c ≡ false

trim_start_ink : (s : Bytes) → All IsInk s → trim_start s ≡ s
unfolding trim_start
trim_start_ink [] h = refl
trim_start_ink (c ∷ s) (hc, h) = rw (hc) refl

trim_end_ink : (s : Bytes) → All IsInk s → trim_end s ≡ s
unfolding trim_end
trim_end_ink [] h = refl
trim_end_ink (c ∷ []) (hc, h) = rw (hc) refl
trim_end_ink (c ∷ d ∷ s) (hc, h) =
    ap (λ t. elim t [ [] ↦ (if is_whitespace c then [] else c ∷ []) | e ∷ u ↦ c ∷ e ∷ u ])
      (trim_end_ink (d ∷ s) h)

trim_ink : (s : Bytes) → All IsInk s → trim s ≡ s
trim_ink s h = rw (trim_start_ink s h) (trim_end_ink s h)

digits-IsInk : (n : ℕ) → All IsInk (print n)
digits-IsInk n = All-imp IsDigit IsInk (λ c d. ground arith) (print n) (print-IsDigit n)

suffix-IsInk : (unit : TimeUnit) → All IsInk (suffix_of unit)
suffix-IsInk milliseconds = (refl, (refl, tt))
suffix-IsInk seconds = (refl, tt)
suffix-IsInk minutes = (refl, tt)
suffix-IsInk hours = (refl, tt)
suffix-IsInk bare = tt

text-IsInk : (n : ℕ) (unit : TimeUnit) → All IsInk (print n ++ suffix_of unit)
text-IsInk n unit = All-append IsInk (print n) (suffix_of unit) (digits-IsInk n) (suffix-IsInk unit)

letter-Lacks : (c n : ℕ) (suffix : Bytes) → b'9' < c → Lacks c suffix → Lacks c (print n ++ suffix)
letter-Lacks c n suffix h k =
    All-append (λ b. b ≢ c) (print n) suffix (print-Lacks c n (λ d. omega (arith, d.1, h))) k

-- A suffix with a letter that the text has not.
absent :
    (c n : ℕ) (suffix own : Bytes)
    → b'9' < c
    → Lacks c own
    → (Lacks c suffix → ⊥)
    → strip_suffix suffix (print n ++ own) ≡ none
absent c n suffix own h k in_suffix =
    strip_suffix-Lacks c suffix (print n ++ own) (letter-Lacks c n own h k) in_suffix

with_unit-print :
    (n : ℕ) (unit : TimeUnit)
    → or_seconds (print n ++ suffix_of unit) (with_unit units (print n ++ suffix_of unit))
      ≡ (print n, millis_of unit)
unfolding with_unit
with_unit-print n milliseconds = rw (strip_suffix-append (codes "ms") (print n)) refl
with_unit-print n seconds =
    rw
      (
        absent b'm' n (codes "ms") (codes "s") (omega arith) (ground arith, tt) (λ l. l.0 refl),
        strip_suffix-append (codes "s") (print n),
      )
      refl
with_unit-print n minutes =
    rw
      (
        absent b's' n (codes "ms") (codes "m") (omega arith) (ground arith, tt) (λ l. l.1.0 refl),
        absent b's' n (codes "s") (codes "m") (omega arith) (ground arith, tt) (λ l. l.0 refl),
        strip_suffix-append (codes "m") (print n),
      )
      refl
with_unit-print n hours =
    rw
      (
        absent b's' n (codes "ms") (codes "h") (omega arith) (ground arith, tt) (λ l. l.1.0 refl),
        absent b's' n (codes "s") (codes "h") (omega arith) (ground arith, tt) (λ l. l.0 refl),
        absent b'm' n (codes "m") (codes "h") (omega arith) (ground arith, tt) (λ l. l.0 refl),
        strip_suffix-append (codes "h") (print n),
      )
      refl
with_unit-print n bare =
    rw
      (
        absent b's' n (codes "ms") [] (omega arith) tt (λ l. l.1.0 refl),
        absent b's' n (codes "s") [] (omega arith) tt (λ l. l.0 refl),
        absent b'm' n (codes "m") [] (omega arith) tt (λ l. l.0 refl),
        absent b'h' n (codes "h") [] (omega arith) tt (λ l. l.0 refl),
        append-nil (print n),
      )
      refl

-- A number of 64 bits with a unit, or with none for seconds, is read as that many milliseconds; if they
-- do not fit 64 bits it is an error, never a wrapped duration.
pub parse_duration-print :
    (n : ℕ) (unit : TimeUnit)
    → n ≤ max_u64
    → parse_duration (print n ++ suffix_of unit) ≡ (
        if ltb max_u64 (n * millis_of unit)
        then err (too_long_duration (print n ++ suffix_of unit))
        else ok (n * millis_of unit))
unfolding parse_duration
parse_duration-print n unit h =
    rw
      (
        trim_ink (print n ++ suffix_of unit) (text-IsInk n unit),
        with_unit-print n unit,
        trim_ink (print n) (digits-IsInk n),
        parse-print max_u64 n h,
      )
      refl
