-- ===== src/Core/Id/Charset.antt =====
-- scanbus-core/src/model/id.rs: what a `ScannerId` is made of.
use scanbus_service.Common.{
  ℕ, ◌+◌, ◌<◌, ◌≤◌, ◌≡◌, ◌≢◌, ◌↔◌, refl, true, none, [], ◌∷◌, ◌++◌, arith, Bytes, IsByte, All,
  All-append, all, all→All, All→all, length, length-append, All-imp,
}
use scanbus_service.Common.Utf8.{is_utf8, is_utf8-IsByte}
use scanbus_service.Common.Result.{ok}
use scanbus_service.Core.Id.{
  ScannerId, new, escape_byte, hex_digit, escape_component, from_backend, is_backend_char,
  is_path_char, max_len, refusal,
}

abbrev pub IsPathChar : ℕ → Type 0
IsPathChar b = is_path_char b ≡ true

-- The contract of a scanner id as a path element.
pub record IsValid (id : ScannerId) : Type 0 where
  pub nonempty : id.value ≢ []
  pub fits : length id.value ≤ max_len
  pub charset : All IsPathChar id.value

refusal-none :
    (s : Bytes) → s ≢ [] → length s ≤ max_len → all is_path_char s ≡ true → refusal s ≡ none
unfolding refusal
refusal-none [] h k c = absurd (h refl)
refusal-none (b ∷ s) h k c = ground arith

none-refusal :
    (s : Bytes) → refusal s ≡ none → (s ≢ []) × (length s ≤ max_len) × (all is_path_char s ≡ true)
unfolding refusal
none-refusal [] e = ground arith
none-refusal (b ∷ s) e = ground arith

new_ok : (s : Bytes) (i : ScannerId) → new s ≡ ok i → (refusal s ≡ none) × (i.value ≡ s)
unfolding new
new_ok s i h = ground arith

pub new-IsValid : (s : Bytes) (i : ScannerId) → new s ≡ ok i → IsValid i
new-IsValid s i h =
    let (e, v) = new_ok s i h in
    let (ne, le, cs) = none-refusal s e in
    record { nonempty = rw v ne; fits = rw v le; charset = rw v (all→All is_path_char s cs) }

pub IsValid-new : (i : ScannerId) → IsValid i → new i.value ≡ ok i
unfolding new
IsValid-new i v =
    rw (refusal-none i.value v.nonempty v.fits (All→all is_path_char i.value v.charset), new)

-- `new` accepts exactly the strings that are not empty, have at most 200 bytes and stay in the
-- D-Bus path charset, and it keeps the string as it is.
pub new_iff : (s : Bytes) (i : ScannerId) → (new s ≡ ok i) ↔ ((i.value ≡ s) × IsValid i)
new_iff s i = (λ h. ((new_ok s i h).1, new-IsValid s i h), λ p. rw (← p.0) (IsValid-new i p.1))

escape_byte-charset : (b : ℕ) → b < 256 → All IsPathChar (escape_byte b)
unfolding escape_byte hex_digit
escape_byte-charset b h = ground arith

-- Escaping produces only path characters.
pub escape_component-charset : (s : Bytes) → All IsByte s → All IsPathChar (escape_component s)
unfolding escape_component
escape_component-charset [] h = tt
escape_component-charset (b ∷ s) (hb, hs) =
    All-append IsPathChar (escape_byte b) (escape_component s) (escape_byte-charset b hb)
      (escape_component-charset s hs)

abbrev pub IsBackendChar : ℕ → Type 0
IsBackendChar b = is_backend_char b ≡ true

backend-path : (b : ℕ) → IsBackendChar b → IsPathChar b
backend-path b h = ground arith

from_backend_tested :
    (b a : Bytes)
    → b ≢ []
    → all is_backend_char b ≡ true
    → from_backend b a ≡ new (b ++ b'_' ∷ escape_component a)
unfolding from_backend
from_backend_tested [] a h c = absurd (h refl)
from_backend_tested (x ∷ b) a h c = rw c

tested_from_backend :
    (b a : Bytes) (i : ScannerId)
    → from_backend b a ≡ ok i
    → (b ≢ []) × (all is_backend_char b ≡ true)
unfolding from_backend
tested_from_backend [] a i h = ground arith
tested_from_backend (x ∷ b) a i h = ground arith

-- `from_backend` succeeds exactly if the backend is a non-empty `[a-z0-9]` word and the joined
-- string has at most 200 bytes; the address itself is never the reason of a refusal.
pub from_backend_iff :
    (b a : Bytes) (i : ScannerId)
    → is_utf8 a ≡ true
    → (from_backend b a ≡ ok i) ↔ (
        (b ≢ [])
        × All IsBackendChar b
        × (length b + 1 + length (escape_component a) ≤ max_len)
        × (i.value ≡ b ++ b'_' ∷ escape_component a))
from_backend_iff b a i u = (
  λ h.
      let (ne, cs) = tested_from_backend b a i h in
      let (v, ok_id) = (new_iff joined i).0 (rw (from_backend_tested b a ne cs) at h) in
      (ne, all→All is_backend_char b cs, omega (arith, size, rw v at ok_id.fits), v),
  λ p. rw (from_backend_tested b a p.0 (All→all is_backend_char b p.1)) (
      (new_iff joined i).1 (
        p.3,
        record {
          nonempty = rw p.3 (cons_end b);
          fits = rw p.3 (omega (arith, size, p.2));
          charset = rw p.3 (
              All-append IsPathChar b (b'_' ∷ escape_component a)
                (All-imp IsBackendChar IsPathChar backend-path b p.1)
                (refl, escape_component-charset a (is_utf8-IsByte a u)));
        },
      )),
)
  where
    joined : Bytes
    joined = b ++ b'_' ∷ escape_component a

    size : length joined ≡ length b + 1 + length (escape_component a)
    size = omega (arith, length-append {0} b (b'_' ∷ escape_component a))

    cons_end : (xs : Bytes) → xs ++ b'_' ∷ escape_component a ≢ []
    cons_end [] = cc
    cons_end (x ∷ xs) = cc
