-- ===== src/Common/Utf8.antt =====
-- `String::from_utf8`: which lists of bytes are well-formed UTF-8.
use scanbus_service.Common.Text.{Bytes, IsByte, codes}
use scanbus_service.Common.Tests.{leb, ltb, ◌==◌, if◌then◌else◌}
use scanbus_service.Common.Lists.{All}
use Prim.Native.Nat.{ℕ, zero, suc, ◌≤◌}
use mathlib.Core.Path.{◌≡◌, refl}
use mathlib.Core.Bool.{Bool, true, false, ◌&&◌}
use mathlib.Core.Option.{Option, none, some}
use mathlib.Core.List.{[], ◌∷◌}
use native.Mathlib.Omega.{arith}

-- How many continuation bytes are still due, and the bounds of the next one.
pub record Pending : Type 0 where
  pub due : ℕ
  pub lo : ℕ
  pub hi : ℕ

abbrev pending : ℕ → ℕ → ℕ → Pending
pending d l h = record { due = d; lo = l; hi = h }

abbrev pub complete : Pending
complete = pending 0 0x80 0xbf

within : ℕ → ℕ → ℕ → Bool
within lo hi b = leb lo b && leb b hi

-- What a first byte announces.
lead : ℕ → Option Pending
unfolding within
lead b =
    if ltb b 0x80
    then some complete
    else if within 0xc2 0xdf b
    then some (pending 1 0x80 0xbf)
    else if b == 0xe0
    then some (pending 2 0xa0 0xbf)
    else if b == 0xed
    then some (pending 2 0x80 0x9f)
    else if within 0xe1 0xef b
    then some (pending 2 0x80 0xbf)
    else if b == 0xf0
    then some (pending 3 0x90 0xbf)
    else if within 0xf1 0xf3 b
    then some (pending 3 0x80 0xbf)
    else if b == 0xf4
    then some (pending 3 0x80 0x8f)
    else none

next : Pending → ℕ → Option Pending
unfolding lead within
next p b = elim p.due [
  | zero ↦ lead b
  | suc n ↦ if within p.lo p.hi b then some (pending n 0x80 0xbf) else none
]

utf8_from : Option Pending → Bytes → Bool
unfolding next
utf8_from none s = false
utf8_from (some p) [] = p.due == 0
utf8_from (some p) (b ∷ s) = utf8_from (next p b) s

unfoldable pub is_utf8 : Bytes → Bool
unfolding utf8_from
is_utf8 s = utf8_from (some complete) s

next_bounds : (p q : Pending) (b : ℕ) → p.hi ≤ 0xbf → next p b ≡ some q → IsByte b × (q.hi ≤ 0xbf)
unfolding next
next_bounds p q b h e = ground arith

utf8_from-IsByte :
    (s : Bytes) (p : Pending) → p.hi ≤ 0xbf → utf8_from (some p) s ≡ true → All IsByte s
unfolding utf8_from
utf8_from-IsByte [] p h e = tt
utf8_from-IsByte (b ∷ s) p h e = go (utf8_from-IsByte s) (next p b) refl e
  where
    go :
        ((q : Pending) → q.hi ≤ 0xbf → utf8_from (some q) s ≡ true → All IsByte s)
        → (o : Option Pending) → next p b ≡ o
        → utf8_from o s ≡ true
        → All IsByte (b ∷ s)
    go ih none eq u = absurd (cc)
    go ih (some q) eq u = let (hb, hq) = next_bounds p q b h eq in (hb, ih q hq u)

-- Well-formed text is made of bytes.
pub is_utf8-IsByte : (s : Bytes) → is_utf8 s ≡ true → All IsByte s
unfolding is_utf8
is_utf8-IsByte s h = utf8_from-IsByte s complete (omega arith) h

utf8_accent : is_utf8 (0xc3 ∷ 0x89 ∷ codes "pson") ≡ true
unfolding is_utf8
utf8_accent = refl

utf8_overlong : is_utf8 (0xc0 ∷ 0x80 ∷ []) ≡ false
unfolding is_utf8
utf8_overlong = refl
