-- ===== src/Brother/Snmp/Oid/RoundTrip.antt =====
-- scanbus-backend-brother/src/skey/snmp.rs: an object identifier survives both of its spellings.
use scanbus_service.Common.{
  ℕ, zero, suc, ◌+◌, ◌*◌, ◌/◌, ◌%◌, ◌<◌, ◌≤◌, ◌≡◌, refl, ◌∙◌, Bool, true, false, List, [], ◌∷◌,
  Bytes, Lacks, ltb, split, split-append, split-Lacks, map, join_parts, ◌==◌, if◌then◌else◌, arith,
  All, Bool-cases, inl, inr,
}
use scanbus_service.Common.Decimal.{print, max_u32, parse-print, print-Lacks}
use scanbus_service.Common.Result.{ok, ◌>>=◌, map_ok}
use scanbus_service.Brother.Snmp.Oid.{
  Oid, new, marked_groups, encode_base128, encode_arcs, oid_content, decode_arcs, decode, dotted,
  parse_arc, parse_arcs, parse,
}

abbrev pub IsArc : ℕ → Type 0
IsArc n = n ≤ max_u32

-- What `Oid::new` lets through, on arcs of 32 bits.
abbrev pub IsValid : Oid → Type 0
IsValid oid = (new oid.arcs ≡ ok oid) × All IsArc oid.arcs

abbrev busy : ℕ → Bool → Bool
busy arc before = if arc == 0 then before else true

-- Seven bits a group, so many groups are enough.
abbrev Fits : ℕ → ℕ → Type 0
Fits zero arc = arc ≡ 0
Fits (suc groups) arc = Fits groups (arc / 128)

marked_byte :
    (arc : ℕ) (before : Bool) (rest : Bytes)
    → arc ≤ max_u32
    → decode_arcs (arc / 128) before ((arc % 128 + 128) ∷ rest) ≡ decode_arcs arc true rest
unfolding decode_arcs
marked_byte arc before rest k =
    let same : arc / 128 * 128 + (arc % 128 + 128) % 128 ≡ arc = omega arith in
    let fits : ltb max_u32 arc ≡ false = ground arith in
    let marked : ltb (arc % 128 + 128) 128 ≡ false = ground arith in rw (same, fits, marked) refl

last_byte :
    (arc : ℕ) (before : Bool) (rest : Bytes)
    → arc ≤ max_u32
    → decode_arcs (arc / 128) before ((arc % 128) ∷ rest)
      ≡ map_ok (λ arcs. arc ∷ arcs) (decode_arcs 0 false rest)
unfolding decode_arcs
last_byte arc before rest k =
    let same : arc / 128 * 128 + arc % 128 % 128 ≡ arc = omega arith in
    let fits : ltb max_u32 arc ≡ false = ground arith in
    let marked : ltb (arc % 128) 128 ≡ true = ground arith in rw (same, fits, marked) refl

marked_groups-read :
    (fuel arc : ℕ) (before : Bool) (tail : Bytes)
    → Fits fuel arc
    → arc ≤ max_u32
    → decode_arcs 0 before (marked_groups fuel arc tail) ≡ decode_arcs arc (busy arc before) tail
unfolding marked_groups
marked_groups-read zero arc before tail h k = rw (h) refl
marked_groups-read (suc fuel) arc before tail h k = elim (Bool-cases (arc == 0)) [
  | inl nothing ↦ let e : arc ≡ 0 = ground arith in rw (nothing, e) refl
  | inr some_bits ↦ rw (some_bits) (
      marked_groups-read fuel (arc / 128) before ((arc % 128 + 128) ∷ tail) h (omega arith)
      ∙ marked_byte arc (busy (arc / 128) before) tail k)
]

encode_base128-read :
    (arc : ℕ) (tail : Bytes)
    → IsArc arc
    → decode_arcs 0 false (encode_base128 arc tail)
      ≡ map_ok (λ arcs. arc ∷ arcs) (decode_arcs 0 false tail)
unfolding encode_base128
encode_base128-read arc tail h =
    marked_groups-read 4 (arc / 128) false (arc % 128 ∷ tail) (omega arith) (omega arith)
    ∙ last_byte arc (busy (arc / 128) false) tail h

encode_arcs-read :
    (arcs : List ℕ) → All IsArc arcs → decode_arcs 0 false (encode_arcs arcs) ≡ ok arcs
unfolding encode_arcs decode_arcs
encode_arcs-read [] h = refl
encode_arcs-read (arc ∷ arcs) (ha, h) =
    rw (encode_base128-read arc (encode_arcs arcs) ha, encode_arcs-read arcs h) refl

first_arcs :
    (a b : ℕ) → a ≤ 2 → b < 40 → ((40 * a + b) % 256 / 40 ≡ a) × ((40 * a + b) % 256 % 40 ≡ b)
first_arcs a b h k = (omega arith, omega arith)

new-arcs : (a b : ℕ) (arcs : List ℕ) (oid : Oid) → new (a ∷ b ∷ arcs) ≡ ok oid → (a ≤ 2) × (b < 40)
unfolding new
new-arcs a b arcs oid h = ground arith

arcs-decode :
    (arcs : List ℕ)
    → new arcs ≡ ok (record { arcs = arcs })
    → All IsArc arcs
    → decode (oid_content (record { arcs = arcs })) ≡ ok (record { arcs = arcs })
unfolding decode oid_content
arcs-decode [] h k = unfold new in absurd (cc)
arcs-decode (a ∷ []) h k = unfold new in absurd (cc)
arcs-decode (a ∷ b ∷ arcs) h (_, (_, k)) =
    let (low, high) = new-arcs a b arcs _ h in
    let (first, second) = first_arcs a b low high in rw (encode_arcs-read arcs k, first, second) h

-- A valid object identifier is read back from its content.
pub decode-oid_content : (oid : Oid) → IsValid oid → decode (oid_content oid) ≡ ok oid
decode-oid_content oid h = arcs-decode oid.arcs h.0 h.1

dotted_arc-Lacks : (arc : ℕ) → Lacks b'.' (print arc)
dotted_arc-Lacks arc = print-Lacks b'.' arc (λ d. ground arith)

parse_arc-print : (arc : ℕ) → IsArc arc → parse_arc (print arc) ≡ ok arc
parse_arc-print arc h = rw (parse-print max_u32 arc h) refl

parse_arcs-split :
    (arc : ℕ) (arcs : List ℕ)
    → All IsArc (arc ∷ arcs)
    → parse_arcs (split b'.' (join_parts b'.' (map print (arc ∷ arcs)))) ≡ ok (arc ∷ arcs)
unfolding parse_arcs
parse_arcs-split arc [] (h, _) =
    rw (split-Lacks b'.' (print arc) (dotted_arc-Lacks arc), parse_arc-print arc h) refl
parse_arcs-split arc (next ∷ arcs) (h, k) =
    rw
      (
        split-append b'.' (print arc) (join_parts b'.' (map print (next ∷ arcs)))
            (dotted_arc-Lacks arc),
        parse_arcs-split next arcs k,
        parse_arc-print arc h,
      )
      refl

arcs-parse :
    (arcs : List ℕ) (oid : Oid)
    → new arcs ≡ ok oid
    → All IsArc arcs
    → (parse_arcs (split b'.' (join_parts b'.' (map print arcs))) >>= new) ≡ ok oid
arcs-parse [] oid h k = unfold new in absurd (cc)
arcs-parse (arc ∷ arcs) oid h k = rw (parse_arcs-split arc arcs k) h

-- A valid object identifier is read back from its dotted form.
pub parse-dotted : (oid : Oid) → IsValid oid → parse (dotted oid) ≡ ok oid
unfolding parse dotted
parse-dotted oid h = arcs-parse oid.arcs oid h.0 h.1
