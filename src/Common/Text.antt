-- ===== src/Common/Text.antt =====
-- A Rust `str` or `String` is the list of its bytes, a byte a number below 256.
use Prim.Native.Nat.{ℕ, ◌+◌, ◌<◌}
use Prim.Native.Char.{code}
use Prim.Native.String.{String}
use mathlib.Core.Path.{◌≡◌, refl, ap, ◌∙◌}
use mathlib.Core.Logic.{◌↔◌, ◌≢◌}
use mathlib.Core.Bool.{Bool, true, false, ◌&&◌, ◌||◌}
use mathlib.Core.List.{List, [], ◌∷◌, ◌++◌}
use mathlib.Core.Option
use mathlib.Core.Option.{Option, none, some}
use native.Mathlib.Omega.{arith}
use scanbus_service.Common.Tests.{◌==◌, leb, if◌then◌else◌}
use scanbus_service.Common.Lists.{All}

abbrev pub Bytes : Type 0
Bytes = List ℕ

-- The bytes of an ASCII literal.
abbrev pub codes : String → Bytes
codes String.[] = []
codes (String.◌∷◌ c s) = code c ∷ codes s

abbrev pub IsByte : ℕ → Type 0
IsByte b = b < 256

abbrev pub Lacks : ℕ → Bytes → Type 0
Lacks c = All (λ b. b ≢ c)

-- `==` of two texts
unfoldable pub beq : Bytes → Bytes → Bool
beq [] [] = true
beq [] (y ∷ ys) = false
beq (x ∷ xs) [] = false
beq (x ∷ xs) (y ∷ ys) = x == y && beq xs ys

pub beq→eq : (xs ys : Bytes) → beq xs ys ≡ true → xs ≡ ys
unfolding beq
beq→eq [] [] h = refl
beq→eq [] (y ∷ ys) h = ground arith
beq→eq (x ∷ xs) [] h = ground arith
beq→eq (x ∷ xs) (y ∷ ys) h = ground (arith, beq→eq xs ys)

pub beq_refl : (xs : Bytes) → beq xs xs ≡ true
unfolding beq
beq_refl [] = refl
beq_refl (x ∷ xs) = ground (arith, beq_refl xs)

pub beq_iff : (xs ys : Bytes) → (beq xs ys ≡ true) ↔ (xs ≡ ys)
beq_iff xs ys = (beq→eq xs ys, λ e. rw (← e) (beq_refl xs))

abbrev pub is_digit : ℕ → Bool
is_digit b = leb b'0' b && leb b b'9'

abbrev pub is_lower : ℕ → Bool
is_lower b = leb b'a' b && leb b b'z'

abbrev pub is_upper : ℕ → Bool
is_upper b = leb b'A' b && leb b b'Z'

-- `u8::is_ascii_alphanumeric`
abbrev pub is_alphanumeric : ℕ → Bool
is_alphanumeric b = is_digit b || is_lower b || is_upper b

-- `str::split(sep)`: at least one part.
add_to_parts : Bool → ℕ → List Bytes → List Bytes
add_to_parts true c parts = [] ∷ parts
add_to_parts false c [] = (c ∷ []) ∷ []
add_to_parts false c (p ∷ ps) = (c ∷ p) ∷ ps

unfoldable pub split : ℕ → Bytes → List Bytes
unfolding add_to_parts
split sep [] = [] ∷ []
split sep (c ∷ s) = add_to_parts (c == sep) c (split sep s)

pub split-Lacks : (sep : ℕ) (p : Bytes) → Lacks sep p → split sep p ≡ p ∷ []
unfolding split
split-Lacks sep [] h = refl
split-Lacks sep (c ∷ p) (hc, hp) = rw (split-Lacks sep p hp, split) (ground arith)

pub split-append :
    (sep : ℕ) (p s : Bytes) → Lacks sep p → split sep (p ++ sep ∷ s) ≡ p ∷ split sep s
unfolding split
split-append sep [] s h = ground arith
split-append sep (c ∷ p) s (hc, hp) = rw (split-append sep p s hp, split) (ground arith)

-- The parts with the separator between them.
abbrev pub join_parts : ℕ → List Bytes → Bytes
join_parts sep [] = []
join_parts sep (p ∷ []) = p
join_parts sep (p ∷ q ∷ ps) = p ++ sep ∷ join_parts sep (q ∷ ps)

join-add_to_parts :
    (sep c : ℕ) (ps : List Bytes)
    → ps ≢ []
    → (join_parts sep (add_to_parts (c == sep) c ps) ≡ c ∷ join_parts sep ps)
      × (add_to_parts (c == sep) c ps ≢ [])
unfolding add_to_parts
join-add_to_parts sep c [] h = absurd (h refl)
join-add_to_parts sep c (p ∷ []) h = (ground arith, ground arith)
join-add_to_parts sep c (p ∷ q ∷ ps) h = (ground arith, ground arith)

split-ne-nil : (sep : ℕ) (s : Bytes) → split sep s ≢ []
unfolding split
split-ne-nil sep [] = ground arith
split-ne-nil sep (c ∷ s) = (join-add_to_parts sep c (split sep s) (split-ne-nil sep s)).1

pub join-split : (sep : ℕ) (s : Bytes) → join_parts sep (split sep s) ≡ s
unfolding split
join-split sep [] = refl
join-split sep (c ∷ s) =
    (join-add_to_parts sep c (split sep s) (split-ne-nil sep s)).0
    ∙ ap (λ t. c ∷ t) (join-split sep s)

-- `str::split_once(sep)`
unfoldable pub split_once : ℕ → Bytes → Option (Bytes × Bytes)
split_once sep [] = none
split_once sep (c ∷ s) =
    let rest = Option.map {A = Bytes × Bytes} (λ p. (c ∷ p.0, p.1)) (split_once sep s) in
    if c == sep then some ([], s) else rest

pub split_once-append :
    (sep : ℕ) (p s : Bytes) → Lacks sep p → split_once sep (p ++ sep ∷ s) ≡ some (p, s)
unfolding split_once
split_once-append sep [] s h = ground arith
split_once-append sep (c ∷ p) s (hc, hp) = rw (split_once-append sep p s hp) (ground arith)

pub split_once-Lacks : (sep : ℕ) (p : Bytes) → Lacks sep p → split_once sep p ≡ none
unfolding split_once
split_once-Lacks sep [] h = refl
split_once-Lacks sep (c ∷ p) (hc, hp) = rw (split_once-Lacks sep p hp) (ground arith)

-- `text.strip_prefix(prefix)`
unfoldable pub strip_prefix : Bytes → Bytes → Option Bytes
strip_prefix [] s = some s
strip_prefix (p ∷ ps) [] = none
strip_prefix (p ∷ ps) (c ∷ s) = let rest = strip_prefix ps s in if p == c then rest else none

pub strip_prefix-append : (p s : Bytes) → strip_prefix p (p ++ s) ≡ some s
unfolding strip_prefix
strip_prefix-append [] s = refl
strip_prefix-append (c ∷ p) s = rw (strip_prefix-append p s) (ground arith)

-- `text.strip_suffix(c)` for one byte `c`
unfoldable pub strip_last : ℕ → Bytes → Option Bytes
strip_last c [] = none
strip_last c (b ∷ []) = if b == c then some [] else none
strip_last c (b ∷ d ∷ s) = Option.map (λ rest. b ∷ rest) (strip_last c (d ∷ s))

pub strip_last-append : (c : ℕ) (s : Bytes) → strip_last c (s ++ c ∷ []) ≡ some s
unfolding strip_last
strip_last-append c [] = ground arith
strip_last-append c (b ∷ []) = ground arith
strip_last-append c (b ∷ d ∷ s) = rw (strip_last-append c (d ∷ s))

-- `text.contains(part)` and `text.starts_with(part)`
unfoldable pub starts_with : Bytes → Bytes → Bool
starts_with [] s = true
starts_with (p ∷ ps) [] = false
starts_with (p ∷ ps) (c ∷ s) = p == c && starts_with ps s

unfoldable pub contains : Bytes → Bytes → Bool
contains part [] = starts_with part []
contains part (c ∷ s) = starts_with part (c ∷ s) || contains part s

-- `u8::to_ascii_lowercase`
abbrev pub lower : ℕ → ℕ
lower b = if is_upper b then b + 32 else b

pub strip_prefix_sound : (p s t : Bytes) → strip_prefix p s ≡ some t → s ≡ p ++ t
unfolding strip_prefix
strip_prefix_sound [] s t h = ground arith
strip_prefix_sound (c ∷ p) [] t h = ground arith
strip_prefix_sound (c ∷ p) (d ∷ s) t h = ground (arith, strip_prefix_sound p s t)
