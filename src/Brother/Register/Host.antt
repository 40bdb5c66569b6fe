-- ===== src/Brother/Register/Host.antt =====
-- scanbus-backend-brother/src/skey/register.rs: the address of the `HOST` field.
use scanbus_service.Common.{
  ℕ, zero, suc, ◌≤◌, ◌<◌, ◌≡◌, ◌≢◌, refl, sym, true, some, [], ◌∷◌, ◌++◌, Bytes, Lacks, all, length,
  is_digit, split-append, split-Lacks, arith, All, All-append,
}
use scanbus_service.Common.Decimal.{
  parse_uint, print, max_u8, parse-print, print-Lacks, print-IsDigit, print_lead, print_zero,
  length-print, IsDigit,
}
use scanbus_service.Brother.Event.{Address, parse_octet, parse_address}
use scanbus_service.Brother.Register.{print_address}

abbrev pub IsAddress : Address → Type 0
IsAddress (a, b, c, d) = (a < 256) × (b < 256) × (c < 256) × (d < 256)

digits_all : (s : Bytes) → All IsDigit s → all is_digit s ≡ true
digits_all [] h = refl
digits_all (c ∷ s) (hc, h) = ground (arith, hc, digits_all s h)

-- The tests of `parse_octet` on a number of up to three digits without a leading zero.
octet_of :
    (n c : ℕ) (s : Bytes)
    → all is_digit (c ∷ s) ≡ true
    → length s ≤ 2
    → c ≢ b'0'
    → parse_uint max_u8 (c ∷ s) ≡ some n
    → parse_octet (c ∷ s) ≡ some n
unfolding parse_octet
octet_of n c s digits short lead e = ground (arith, digits, short, lead, e)

zero_octet : parse_octet (b'0' ∷ []) ≡ some 0
unfolding parse_octet parse_uint
zero_octet = refl

parse_octet-print : (n : ℕ) → n < 256 → parse_octet (print n) ≡ some n
parse_octet-print zero h = rw (print_zero) zero_octet
parse_octet-print (suc n) h =
    let (c, s, e, lead) = print_lead (suc n) (omega arith) in
    let digits : all is_digit (c ∷ s) ≡ true =
      rw (e) at (digits_all (print (suc n)) (print-IsDigit (suc n))) in
    let short : length (c ∷ s) ≤ 3 = rw (e) at (length-print (suc n) 2 (omega arith)) in
    let read : parse_uint max_u8 (c ∷ s) ≡ some (suc n) =
      rw (e) at (parse-print max_u8 (suc n) (omega arith)) in
    rw (e) (octet_of (suc n) c s digits (omega arith) lead read)

pub print_address-Lacks :
    (address : Address) (c : ℕ) → ¬ IsDigit c → c ≢ b'.' → Lacks c (print_address address)
unfolding print_address
print_address-Lacks (a, b, c, d) x h k =
    let lacks : (n : ℕ) → Lacks x (print n) = λ n. print-Lacks x n h in
    let dot : b'.' ≢ x = λ e. k (sym e) in
    All-append (λ b. b ≢ x) (print a) _ (lacks a)
      (
        dot,
        All-append (λ b. b ≢ x) (print b) _ (lacks b)
            (dot, All-append (λ b. b ≢ x) (print c) _ (lacks c) (dot, lacks d)),
      )

-- An IPv4 address is read back from its print.
pub parse_address-print_address :
    (address : Address) → IsAddress address → parse_address (print_address address) ≡ some address
unfolding parse_address print_address
parse_address-print_address (a, b, c, d) (ha, hb, hc, hd) =
    let dot : (n : ℕ) → Lacks b'.' (print n) = λ n. print-Lacks b'.' n (λ digit. ground arith) in
    rw
      (
        split-append b'.' (print a) (print b ++ b'.' ∷ (print c ++ b'.' ∷ print d)) (dot a),
        split-append b'.' (print b) (print c ++ b'.' ∷ print d) (dot b),
        split-append b'.' (print c) (print d) (dot c),
        split-Lacks b'.' (print d) (dot d),
        parse_octet-print a ha,
        parse_octet-print b hb,
        parse_octet-print c hc,
        parse_octet-print d hd,
      )
      refl
