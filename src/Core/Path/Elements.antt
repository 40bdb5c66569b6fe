-- ===== src/Core/Path/Elements.antt =====
-- scanbus-core/src/path.rs: the elements of a composed path.
use scanbus_service.Common.{
  ℕ, ◌≡◌, ◌≢◌, refl, sym, ◌∙◌, ap, true, false, not, some, List, [], ◌∷◌, ◌++◌, arith, Bytes, codes,
  All, Lacks, All-imp, beq, all, split, split-Lacks, split-append, strip_prefix, strip_prefix_sound,
  join_parts, join-split,
}
use scanbus_service.Common.Decimal.{print, print-Lacks, print-cons}
use scanbus_service.Common.Optional.{>>=-eq-some}
use scanbus_service.Core.Id.{ScannerId, is_empty}
use scanbus_service.Core.Id.Charset.{IsValid, IsPathChar}
use scanbus_service.Core.Path.{root, elements, below_root, checked}

-- `{p}/{q}/…`
abbrev pub below : Bytes → List Bytes → Bytes
below p [] = p
below p (q ∷ ps) = p ++ b'/' ∷ below q ps

-- What can stand between two slashes.
abbrev pub IsElement : Bytes → Type 0
IsElement p = (p ≢ []) × Lacks b'/' p

split-below :
    (p : Bytes) (ps : List Bytes) → All IsElement (p ∷ ps) → split b'/' (below p ps) ≡ p ∷ ps
split-below p [] (hp, _) = split-Lacks b'/' p hp.1
split-below p (q ∷ ps) (hp, hps) =
    split-append b'/' p (below q ps) hp.1 ∙ ap (λ l. p ∷ l) (split-below q ps hps)

not_empty : (p : Bytes) → p ≢ [] → is_empty p ≡ false
not_empty [] h = absurd (h refl)
not_empty (c ∷ p) h = refl

all_nonempty : (ps : List Bytes) → All IsElement ps → all (λ part. not (is_empty part)) ps ≡ true
all_nonempty [] h = refl
all_nonempty (p ∷ ps) (hp, hps) = rw (not_empty p hp.0, all_nonempty ps hps)

pub elements-below :
    (p : Bytes) (ps : List Bytes)
    → All IsElement (p ∷ ps)
    → elements (root ++ b'/' ∷ below p ps) ≡ some (p ∷ ps)
unfolding elements beq strip_prefix
elements-below p ps h = rw (split-below p ps h, all_nonempty (p ∷ ps) h)

below_join : (p : Bytes) (ps : List Bytes) → below p ps ≡ join_parts b'/' (p ∷ ps)
below_join p [] = refl
below_join p (q ∷ ps) = ap (λ t. p ++ b'/' ∷ t) (below_join q ps)

below_root_shape :
    (path p : Bytes) (ps : List Bytes)
    → below_root path ≡ some (p ∷ ps)
    → (under rest : Bytes) × (strip_prefix root path ≡ some under)
      × (strip_prefix (codes "/") under ≡ some rest)
      × (split b'/' rest ≡ p ∷ ps)
unfolding below_root checked
below_root_shape path p ps h =
    let (under, e, h1) = >>=-eq-some (strip_prefix root path) _ h in
    let (rest, f, h2) = >>=-eq-some (strip_prefix (codes "/") under) _ h1 in
    (under, rest, e, f, ground arith)

elements-below_root :
    (path p : Bytes) (ps : List Bytes)
    → elements path ≡ some (p ∷ ps)
    → below_root path ≡ some (p ∷ ps)
unfolding elements
elements-below_root path p ps h = ground arith

-- A path with elements is the root followed by them.
pub elements_sound :
    (path p : Bytes) (ps : List Bytes)
    → elements path ≡ some (p ∷ ps)
    → path ≡ root ++ b'/' ∷ below p ps
elements_sound path p ps h =
    let (under, rest, e, f, g) = below_root_shape path p ps (elements-below_root path p ps h) in
    let spelled : below p ps ≡ rest =
      below_join p ps ∙ sym (ap (join_parts b'/') g) ∙ join-split b'/' rest in
    strip_prefix_sound root path under e
    ∙ ap (λ t. root ++ t)
        (strip_prefix_sound (codes "/") under rest f ∙ ap (λ t. b'/' ∷ t) (sym spelled))

pub id-IsElement : (id : ScannerId) → IsValid id → IsElement id.value
id-IsElement id v =
    (v.nonempty, All-imp IsPathChar (λ b. b ≢ b'/') (λ b h. ground arith) id.value v.charset)

pub print-IsElement : (n : ℕ) → IsElement (print n)
print-IsElement n =
    let (c, s, e, d) = print-cons n in (rw e (cc), print-Lacks b'/' n (λ d. omega arith))
