-- ===== src/Core/Id/Escape.antt =====
-- scanbus-core/src/model/id.rs: the escaping and its reverse.
use scanbus_service.Common.{
  ℕ, ◌/◌, ◌%◌, ◌<◌, ◌≡◌, ◌≢◌, refl, true, some, [], ◌∷◌, ◌++◌, arith, Bytes, IsByte, All,
  Bool-cases, inl, inr, is_alphanumeric, Lacks, split_once-append, all,
}
use scanbus_service.Common.Result.{ok}
use scanbus_service.Common.Optional.{◌>>=◌}
use scanbus_service.Common.Utf8.{is_utf8, is_utf8-IsByte}
use scanbus_service.Core.Id.{
  ScannerId, new, escape_byte, hex_digit, hex_byte, escape_component, unescape_bytes,
  unescape_component, from_backend, is_backend_char,
}

hex_byte-hex_digit : (b : ℕ) → b < 256 → hex_byte (hex_digit (b / 16)) (hex_digit (b % 16)) ≡ some b
unfolding hex_byte hex_digit
hex_byte-hex_digit b h = ground arith

unescape_plain :
    (c : ℕ) (s : Bytes)
    → c ≢ b'_'
    → unescape_bytes (c ∷ s) ≡ (unescape_bytes s >>= λ out. some (c ∷ out))
unfolding unescape_bytes
unescape_plain c [] h = ground arith
unescape_plain c (d ∷ []) h = ground arith
unescape_plain c (d ∷ e ∷ s) h = ground arith

unescape_escaped :
    (b : ℕ) (s : Bytes)
    → b < 256
    → unescape_bytes (b'_' ∷ hex_digit (b / 16) ∷ hex_digit (b % 16) ∷ s)
      ≡ (unescape_bytes s >>= λ out. some (b ∷ out))
unfolding unescape_bytes
unescape_escaped b s h = rw (hex_byte-hex_digit b h)

unescape-escape_byte :
    (b : ℕ) (s : Bytes)
    → b < 256
    → unescape_bytes (escape_byte b ++ s) ≡ (unescape_bytes s >>= λ out. some (b ∷ out))
unfolding escape_byte
unescape-escape_byte b s h = elim (Bool-cases (is_alphanumeric b)) [
  | inl plain ↦ rw plain (unescape_plain b s (ground arith))
  | inr other ↦ rw other (unescape_escaped b s h)
]

unescape_bytes-escape : (s : Bytes) → All IsByte s → unescape_bytes (escape_component s) ≡ some s
unfolding escape_component
unescape_bytes-escape [] h = unfold unescape_bytes in refl
unescape_bytes-escape (b ∷ s) (hb, hs) =
    rw (unescape-escape_byte b (escape_component s) hb, unescape_bytes-escape s hs)

-- Unescaping an escaped text gives the text back, whatever valid UTF-8 it is.
pub unescape-escape :
    (raw : Bytes) → is_utf8 raw ≡ true → unescape_component (escape_component raw) ≡ some raw
unfolding unescape_component
unescape-escape raw h = rw (unescape_bytes-escape raw (is_utf8-IsByte raw h), h)

pub escape_component-injective :
    (s t : Bytes) → All IsByte s → All IsByte t → escape_component s ≡ escape_component t → s ≡ t
escape_component-injective s t hs ht e = cc (unescape_bytes-escape s hs, unescape_bytes-escape t ht)

backend_Lacks : (s : Bytes) → all is_backend_char s ≡ true → Lacks b'_' s
backend_Lacks [] h = tt
backend_Lacks (c ∷ s) h = (ground arith, backend_Lacks s (ground arith))

pub new-value : (s : Bytes) (i : ScannerId) → new s ≡ ok i → i.value ≡ s
unfolding new
new-value s i h = ground arith

from_backend-value :
    (b a : Bytes) {i : ScannerId}
    → from_backend b a ≡ ok i
    → (all is_backend_char b ≡ true) × (i.value ≡ b ++ b'_' ∷ escape_component a)
unfolding from_backend
from_backend-value b a {i} h = ground (arith, new-value (b ++ b'_' ∷ escape_component a) i)

-- Two devices share an id only if the backend and the address are the same: the first `_` always
-- separates the two, and the escaping loses nothing.
pub from_backend-injective :
    (b b' a a' : Bytes) {i : ScannerId}
    → is_utf8 a ≡ true
    → is_utf8 a' ≡ true
    → from_backend b a ≡ ok i
    → from_backend b' a' ≡ ok i
    → (b ≡ b') × (a ≡ a')
from_backend-injective b b' a a' ha ha' h h' =
    let (cb, v) = from_backend-value b a h in
    let (cb', v') = from_backend-value b' a' h' in
    let e = split_once-append b'_' b (escape_component a) (backend_Lacks b cb) in
    let e' = split_once-append b'_' b' (escape_component a') (backend_Lacks b' cb') in
    let same : escape_component a ≡ escape_component a' = cc in
    (cc, escape_component-injective a a' (is_utf8-IsByte a ha) (is_utf8-IsByte a' ha') same)
