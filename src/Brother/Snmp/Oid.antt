-- ===== src/Brother/Snmp/Oid.antt =====
-- scanbus-backend-brother/src/skey/snmp.rs: object identifiers, as arcs, on the wire and dotted.
pub mod RoundTrip
use scanbus_service.Common.{
  ℕ, zero, suc, ◌+◌, ◌*◌, ◌/◌, ◌%◌, Bool, true, false, ◌||◌, Option, none, some, List, [], ◌∷◌,
  ◌++◌, Bytes, length, ltb, leb, not, split, map, join_parts, ◌==◌, if◌then◌else◌,
}
use scanbus_service.Common.Decimal.{parse_uint, print, max_u32}
use scanbus_service.Common.Result.{Result, ok, err, ◌>>=◌, map_ok, ok_or}
use scanbus_service.Brother.Snmp.{
  SnmpError, OidFault, too_few, unpackable, empty_content, arc_too_wide, cut_arc, not_a_number,
  bad_oid, tagged, tag_oid,
}

pub record Oid : Type 0 where
  pub arcs : List ℕ

-- `Oid::new`
unfoldable pub new : List ℕ → Result Oid SnmpError
new [] = err (bad_oid (too_few 0))
new (a ∷ []) = err (bad_oid (too_few 1))
new (a ∷ b ∷ arcs) =
    if ltb 2 a || leb 40 b
    then err (bad_oid (unpackable a b))
    else ok (record { arcs = a ∷ b ∷ arcs })

-- The groups of seven bits above the lowest, marked, in front of `tail`. A `u32` has four at most.
unfoldable pub marked_groups : ℕ → ℕ → Bytes → Bytes
marked_groups zero arc tail = tail
marked_groups (suc fuel) arc tail =
    let more = marked_groups fuel (arc / 128) ((arc % 128 + 128) ∷ tail) in
    if arc == 0 then tail else more

-- `encode_base128`
unfoldable pub encode_base128 : ℕ → Bytes → Bytes
encode_base128 arc tail = marked_groups 4 (arc / 128) (arc % 128 ∷ tail)

unfoldable pub encode_arcs : List ℕ → Bytes
encode_arcs [] = []
encode_arcs (arc ∷ arcs) = encode_base128 arc (encode_arcs arcs)

-- The first two arcs share a byte; `Oid::new` lets no identifier without them through.
unfoldable pub oid_content : Oid → Bytes
oid_content oid = elim oid.arcs [
  | [] ↦ []
  | a ∷ rest ↦ elim rest [ [] ↦ [] | b ∷ arcs ↦ ((40 * a + b) % 256) ∷ encode_arcs arcs ]
]

-- `Oid::encode_into`
abbrev pub encode : Oid → Bytes
encode oid = tagged tag_oid (oid_content oid)

-- The loop of `Oid::decode`: the arc that is being read, and whether one is.
unfoldable pub decode_arcs : ℕ → Bool → Bytes → Result (List ℕ) SnmpError
decode_arcs arc in_progress [] = if in_progress then err (bad_oid cut_arc) else ok []
decode_arcs arc in_progress (b ∷ rest) =
    let next = arc * 128 + b % 128 in
    let done = decode_arcs 0 false rest in
    let more = decode_arcs next true rest in
    if ltb max_u32 next
    then err (bad_oid arc_too_wide)
    else if ltb b 128
    then map_ok (λ arcs. next ∷ arcs) done
    else more

-- `Oid::decode`
unfoldable pub decode : Bytes → Result Oid SnmpError
decode [] = err (bad_oid empty_content)
decode (first ∷ rest) = decode_arcs 0 false rest >>= λ arcs. new (first / 40 ∷ first % 40 ∷ arcs)

-- `Display`
unfoldable pub dotted : Oid → Bytes
dotted oid = join_parts b'.' (map print oid.arcs)

abbrev pub parse_arc : Bytes → Result ℕ SnmpError
parse_arc part = ok_or (parse_uint max_u32 part) (bad_oid (not_a_number part))

unfoldable pub parse_arcs : List Bytes → Result (List ℕ) SnmpError
parse_arcs [] = ok []
parse_arcs (part ∷ parts) =
    let rest = parse_arcs parts in parse_arc part >>= λ arc. map_ok (λ arcs. arc ∷ arcs) rest

-- `from_str`
unfoldable pub parse : Bytes → Result Oid SnmpError
parse text = parse_arcs (split b'.' text) >>= new
