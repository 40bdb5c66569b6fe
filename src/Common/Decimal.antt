-- ===== src/Common/Decimal.antt =====
-- `Display` of the unsigned integers, and `str::parse` into one whose largest value is `max`.
use Prim.Native.Nat.{ℕ, zero, suc, ◌+◌, ◌-◌, ◌*◌, ◌/◌, ◌%◌, ◌^◌, ◌≤◌, ◌<◌}
use mathlib.Core.Path.{◌≡◌, refl}
use mathlib.Core.Logic.{◌≢◌, inl, inr}
use mathlib.Core.Bool.{◌&&◌}
use mathlib.Core.List.{[], ◌∷◌, ◌++◌}
use mathlib.Core.Option.{Option, none, some}
use native.Mathlib.Omega.{arith}
use native.Mathlib.Nat.{pow-suc}
use scanbus_service.Common.Tests.{ltb, leb, ◌==◌, if◌then◌else◌, Bool-cases, lt→ltb}
use scanbus_service.Common.Lists.{length, length-append, All, All-append, All-imp}
use scanbus_service.Common.Text.{Bytes, codes, is_digit, Lacks}

abbrev pub max_u8 : ℕ
max_u8 = 2 ^ 8 - 1

abbrev pub max_u16 : ℕ
max_u16 = 2 ^ 16 - 1

abbrev pub max_u32 : ℕ
max_u32 = 2 ^ 32 - 1

abbrev pub max_u64 : ℕ
max_u64 = 2 ^ 64 - 1

-- Digits, the first one first; the fuel is the number of divisions by ten.
emit : ℕ → ℕ → Bytes
emit zero n = []
emit (suc f) n =
    let rest = emit f (n / 10) ++ (b'0' + n % 10) ∷ [] in if ltb n 10 then (b'0' + n) ∷ [] else rest

-- `n.to_string()`
unfoldable pub print : ℕ → Bytes
unfolding emit
print n = emit (suc n) n

-- The digits of `from_str_radix(_, 10)`, with its checked multiplication and addition.
scan : ℕ → ℕ → Bytes → Option ℕ
scan max n [] = some n
scan max n (c ∷ s) =
    let next = n * 10 + (c - b'0') in
    let rest = scan max next s in if is_digit c && leb next max then rest else none

-- `text.parse::<uN>()`: one leading `+` is allowed, and there must be a digit.
unfoldable pub parse_uint : ℕ → Bytes → Option ℕ
unfolding scan
parse_uint max [] = none
parse_uint max (c ∷ []) = if c == b'+' then none else scan max 0 (c ∷ [])
parse_uint max (c ∷ d ∷ s) = if c == b'+' then scan max 0 (d ∷ s) else scan max 0 (c ∷ d ∷ s)

abbrev pub IsDigit : ℕ → Type 0
IsDigit b = (b'0' ≤ b) × (b ≤ b'9')

scan-append :
    (max n m : ℕ) (xs ys : Bytes) → scan max n xs ≡ some m → scan max n (xs ++ ys) ≡ scan max m ys
unfolding scan
scan-append max n m [] ys h = ground arith
scan-append max n m (c ∷ xs) ys h = ground (arith, scan-append max (n * 10 + (c - b'0')) m xs ys)

scan-emit : (max f n : ℕ) → n < f → n ≤ max → scan max 0 (emit f n) ≡ some n
unfolding scan emit
scan-emit max zero n h k = absurd (omega arith)
scan-emit max (suc f) n h k = elim (Bool-cases (ltb n 10)) [
  | inl small ↦ rw small (ground arith)
  | inr big ↦
      rw
        (
          big,
          scan-append max 0 (n / 10) (emit f (n / 10)) ((b'0' + n % 10) ∷ [])
              (scan-emit max f (n / 10) (ground arith) (ground arith)),
        )
        (ground arith)
]

emit-IsDigit : (f n : ℕ) → All IsDigit (emit f n)
unfolding emit
emit-IsDigit zero n = tt
emit-IsDigit (suc f) n = elim (Bool-cases (ltb n 10)) [
  | inl small ↦ rw small (ground arith)
  | inr big ↦
      rw big (All-append IsDigit (emit f (n / 10)) _ (emit-IsDigit f (n / 10)) (omega arith))
]

length-emit : (f n k : ℕ) → n < f → n < 10 ^ suc k → length (emit f n) ≤ suc k
unfolding emit
length-emit zero n k h lt = omega arith
length-emit (suc f) n zero h lt = rw (lt→ltb n 10 (omega arith)) (omega arith)
length-emit (suc f) n (suc k) h lt = elim (Bool-cases (ltb n 10)) [
  | inl small ↦ rw small (omega arith)
  | inr big ↦ rw big (
      omega (
        arith,
        length-append {0} (emit f (n / 10)) ((b'0' + n % 10) ∷ []),
        length-emit f (n / 10) k (ground arith) (omega (arith, pow-suc 10 (suc k))),
      ))
]

emit_shape : (f n : ℕ) → n < f → (c : ℕ) × (s : Bytes) × (emit f n ≡ c ∷ s) × IsDigit c
unfolding emit
emit_shape zero n h = absurd (omega arith)
emit_shape (suc f) n h = elim (Bool-cases (ltb n 10)) [
  | inl small ↦ (b'0' + n, [], rw small, ground arith)
  | inr big ↦
      let (c, s, e, d) = emit_shape f (n / 10) (ground arith) in
      (c, s ++ (b'0' + n % 10) ∷ [], rw (big, e), d)
]

parse-scan : (max c : ℕ) (s : Bytes) → IsDigit c → parse_uint max (c ∷ s) ≡ scan max 0 (c ∷ s)
unfolding parse_uint
parse-scan max c [] h = ground arith
parse-scan max c (d ∷ s) h = ground arith

-- A number is read back from its print.
pub parse-print : (max n : ℕ) → n ≤ max → parse_uint max (print n) ≡ some n
unfolding print
parse-print max n h =
    let (c, s, e, d) = emit_shape (suc n) n (omega arith) in
    rw (e, parse-scan max c s d, ← e) (scan-emit max (suc n) n (omega arith) h)

pub print-IsDigit : (n : ℕ) → All IsDigit (print n)
unfolding print
print-IsDigit n = emit-IsDigit (suc n) n

pub print-Lacks : (c n : ℕ) → ¬ IsDigit c → Lacks c (print n)
print-Lacks c n h =
    All-imp IsDigit (λ b. b ≢ c) (λ b d e. h (rw e at d)) (print n) (print-IsDigit n)

pub print-cons : (n : ℕ) → (c : ℕ) × (s : Bytes) × (print n ≡ c ∷ s) × IsDigit c
unfolding print
print-cons n = emit_shape (suc n) n (omega arith)

emit_lead : (f n : ℕ) → n < f → 1 ≤ n → (c : ℕ) × (s : Bytes) × (emit f n ≡ c ∷ s) × (c ≢ b'0')
unfolding emit
emit_lead zero n h k = absurd (omega arith)
emit_lead (suc f) n h k = elim (Bool-cases (ltb n 10)) [
  | inl small ↦ (b'0' + n, [], rw (small) refl, omega arith)
  | inr big ↦
      let (c, s, e, d) = emit_lead f (n / 10) (ground arith) (ground arith) in
      (c, s ++ (b'0' + n % 10) ∷ [], rw (big, e) refl, d)
]

pub print_zero : print 0 ≡ codes "0"
unfolding print
print_zero = refl

-- The print of a positive number has no leading zero.
pub print_lead : (n : ℕ) → 1 ≤ n → (c : ℕ) × (s : Bytes) × (print n ≡ c ∷ s) × (c ≢ b'0')
unfolding print
print_lead n h = emit_lead (suc n) n (omega arith) h

-- A number below a power of ten has no more digits than its exponent.
pub length-print : (n k : ℕ) → n < 10 ^ suc k → length (print n) ≤ suc k
unfolding print
length-print n k h = length-emit (suc n) n k (omega arith) h

print-max_u64 : print max_u64 ≡ codes "18446744073709551615"
unfolding print
print-max_u64 = refl

parse_overflow : parse_uint max_u64 (codes "18446744073709551616") ≡ none
unfolding parse_uint
parse_overflow = refl

parse_plus : (parse_uint max_u8 (codes "+7") ≡ some 7) × (parse_uint max_u8 (codes "+") ≡ none)
unfolding parse_uint
parse_plus = (refl, refl)
