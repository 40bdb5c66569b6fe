-- ===== src/Core/Id.antt =====
-- scanbus-core/src/model/id.rs: `ScannerId`, and the escaping of an address into a path element.
pub mod Escape
pub mod Charset
use mathlib.Core.Option
use scanbus_service.Common.{
  ℕ, ◌+◌, ◌-◌, ◌*◌, ◌/◌, ◌%◌, ◌≡◌, refl, Bool, true, false, not, ◌||◌, ◌&&◌, Option, none, some,
  List, [], ◌∷◌, ◌++◌, String, Bytes, codes, leb, ltb, ◌==◌, if◌then◌else◌, length, all, is_digit,
  is_lower, is_alphanumeric,
}
use scanbus_service.Common.Result.{Result, ok, err}
use scanbus_service.Common.Optional.{◌>>=◌}
use scanbus_service.Common.Utf8.{is_utf8}

-- The string inside a `ScannerId`.
pub record ScannerId : Type 0 where
  pub value : Bytes

pub record InvalidScannerId : Type 0 where
  pub value : Bytes
  pub reason : String

-- `ScannerId::MAX_LEN`
abbrev pub max_len : ℕ
max_len = 200

-- The D-Bus path charset, `[A-Za-z0-9_]`.
abbrev pub is_path_char : ℕ → Bool
is_path_char b = is_alphanumeric b || b == b'_'

abbrev pub is_empty : Bytes → Bool
is_empty [] = true
is_empty (b ∷ s) = false

abbrev pub reason_empty : String
reason_empty = "empty"

abbrev pub reason_long : String
reason_long = "longer than 200 bytes, which would overflow the object path"

abbrev pub reason_charset : String
reason_charset = "contains a character outside the D-Bus path charset [A-Za-z0-9_]"

abbrev pub reason_backend : String
reason_backend = "backend id must be non-empty and match [a-z0-9]"

-- The first reason to refuse a string.
refusal : Bytes → Option String
refusal s =
    if is_empty s
    then some reason_empty
    else if ltb max_len (length s)
    then some reason_long
    else if all is_path_char s
    then none
    else some reason_charset

-- `ScannerId::new`
unfoldable pub new : Bytes → Result ScannerId InvalidScannerId
unfolding refusal
new s = elim (refusal s) [
  | some reason ↦ err (record { value = s; reason = reason })
  | none ↦ ok (record { value = s })
]

-- One digit of `{:02X}`.
hex_digit : ℕ → ℕ
hex_digit d = if ltb d 10 then b'0' + d else b'A' + (d - 10)

escape_byte : ℕ → Bytes
unfolding hex_digit
escape_byte b =
    if is_alphanumeric b then b ∷ [] else b'_' ∷ hex_digit (b / 16) ∷ hex_digit (b % 16) ∷ []

-- The loop over the bytes of `raw`.
unfoldable pub escape_component : Bytes → Bytes
unfolding escape_byte
escape_component [] = []
escape_component (b ∷ raw) = escape_byte b ++ escape_component raw

-- `char::to_digit(16)`
to_digit : ℕ → Option ℕ
to_digit c =
    if is_digit c
    then some (c - b'0')
    else if leb b'A' c && leb c b'F'
    then some (c - b'A' + 10)
    else if leb b'a' c && leb c b'f'
    then some (c - b'a' + 10)
    else none

-- The byte that two hex digits spell; `as u8` keeps the low eight bits.
hex_byte : ℕ → ℕ → Option ℕ
unfolding to_digit
hex_byte h l = do hi ← to_digit h; lo ← to_digit l; some ((hi * 16 + lo) % 256)

-- The loop of `unescape_component`, before the check for UTF-8.
unescape_bytes : Bytes → Option Bytes
unfolding hex_byte
unescape_bytes [] = some []
unescape_bytes (c ∷ []) = if c == b'_' then none else some (c ∷ [])
unescape_bytes (c ∷ h ∷ []) =
    let rest = unescape_bytes (h ∷ []) in
    if c == b'_' then none else (rest >>= λ out. some (c ∷ out))
unescape_bytes (c ∷ h ∷ l ∷ s) =
    let copied = (unescape_bytes (h ∷ l ∷ s) >>= λ out. some (c ∷ out)) in
    let escaped = (do b ← hex_byte h l; out ← unescape_bytes s; some (b ∷ out)) in
    if c == b'_' then escaped else copied

unfoldable pub unescape_component : Bytes → Option Bytes
unfolding unescape_bytes
unescape_component s = do out ← unescape_bytes s; if is_utf8 out then some out else none

-- `b.is_ascii_lowercase() || b.is_ascii_digit()`
abbrev pub is_backend_char : ℕ → Bool
is_backend_char b = is_lower b || is_digit b

-- `ScannerId::from_backend`
unfoldable pub from_backend : Bytes → Bytes → Result ScannerId InvalidScannerId
from_backend backend address =
    if is_empty backend || not (all is_backend_char backend)
    then err (record { value = backend; reason = reason_backend })
    else new (backend ++ b'_' ∷ escape_component address)

documented_id :
    from_backend (codes "sane") (codes "epson2:net:192.168.1.50")
    ≡ ok (record { value = codes "sane_epson2_3Anet_3A192_2E168_2E1_2E50" })
unfolding from_backend new escape_component
documented_id = refl

truncated_escape : unescape_component (codes "a_2") ≡ none
unfolding unescape_component
truncated_escape = refl
