-- ===== src/Tests/Select.antt =====
-- Two Brother scanners, as `two_brothers` of the source's tests has them.
use mathlib.Core.List.{Memᴰ, Permᴰ}
use scanbus_service.Common.{
  ◌≡◌, ◌≢◌, ◌∙◌, sym, ap, beq, beq_refl, true, ◌↔◌, refl, List, [], ◌∷◌, map, some, false, false,
  Bytes, codes, lower, starts_with, arith,
}
use scanbus_service.Common.Result.{ok, err, to_option}
use scanbus_service.Core.Id.Charset.{IsValid}
use scanbus_service.Client.Select.{
  any_spelling, exact_id, scanner_kind, SelectError, ambiguous, Scanner, Objects, scanner_path,
  scanner_label, decide, scanner, slash,
}
use scanbus_service.Client.Select.Ladder.{FirstMatch, decide_iff}
use scanbus_service.Client.Select.Naming.{Distinct, scanner_named}
use scanbus_service.Client.Select.Order.{scanner_reordered}

abbrev office : Scanner
office = record { id = record { value = codes "brother_net_23" }; name = codes "MFC-L2710DW" }

abbrev home : Scanner
home = record { id = record { value = codes "brother_net_24" }; name = codes "MFC-J5330DW" }

abbrev exported : Objects
exported = record { scanners = office ∷ home ∷ []; buttons = []; jobs = [] }

abbrev turned : Objects
turned = record { scanners = home ∷ office ∷ []; buttons = []; jobs = [] }

abbrev lowercase : Bytes → Bytes
lowercase = map lower

ids-differ : codes "brother_net_24" ≢ codes "brother_net_23"
unfolding beq
ids-differ e =
    let same : beq (codes "brother_net_24") (codes "brother_net_23") ≡ true =
      ap (beq (codes "brother_net_24")) (sym e) ∙ beq_refl (codes "brother_net_24") in
    cc

ids-Distinct : Distinct (λ s. s.id.value) exported.scanners
ids-Distinct = ((ids-differ, tt), (tt, tt))

home-IsValid : IsValid home.id
home-IsValid = record { nonempty = λ e. cc; fits = omega arith; charset = ground arith }

scanner_named_example :
    (scanner lowercase exported (codes "brother_net_24") exact_id ≡ ok home)
    × (scanner lowercase exported (codes "brother_net_24") any_spelling ≡ ok home)
    × (scanner lowercase exported (scanner_path home) any_spelling ≡ ok home)
scanner_named_example =
    scanner_named lowercase exported home ids-Distinct home-IsValid (Memᴰ.tail (Memᴰ.head refl))

no_slash : starts_with slash (codes "j5330") ≡ false
unfolding starts_with
no_slash = refl

scanner_reordered_example :
    to_option (scanner lowercase exported (codes "j5330") any_spelling)
    ≡ to_option (scanner lowercase turned (codes "j5330") any_spelling)
scanner_reordered_example =
    scanner_reordered lowercase exported turned (codes "j5330") (Permᴰ.swap refl refl) no_slash

abbrev both_match : List (List Scanner)
both_match = [] ∷ (office ∷ home ∷ []) ∷ (home ∷ []) ∷ []

abbrev both_named : SelectError
both_named = ambiguous scanner_kind (codes "brother") (map scanner_label (office ∷ home ∷ []))

decide_iff_example :
    ((decide scanner_kind (codes "brother") scanner_label both_match ≡ some (ok home))
      ↔ FirstMatch both_match (home ∷ []))
    × ((decide scanner_kind (codes "brother") scanner_label both_match ≡ some (err both_named)) ↔ (
        (a : Scanner) × (b : Scanner) × (many : List Scanner) × FirstMatch both_match (a ∷ b ∷ many)
        × (both_named
            ≡ ambiguous scanner_kind (codes "brother") (map scanner_label (a ∷ b ∷ many)))))
decide_iff_example =
    decide_iff scanner_kind (codes "brother") scanner_label both_match home both_named
