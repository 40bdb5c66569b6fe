-- ===== src/Daemon/Address.antt =====
-- scanbus-daemon/src/scanners/address.rs: the key of a device. The address comes trimmed and in lower
-- case; its bytes are read, since all that is looked for is ASCII.
use scanbus_service.Common.{
  ℕ, Bool, true, false, not, ◌||◌, ◌&&◌, Option, none, some, List, [], ◌∷◌, ◌++◌, Bytes, codes,
  length, all, split, strip_prefix, is_digit, ◌==◌, if◌then◌else◌,
}
use scanbus_service.Common.Decimal.{max_u8, parse_uint}
use scanbus_service.Common.Optional.{or_else, ◌>>=◌}
use scanbus_service.Core.Id.{is_empty}

-- What follows the first place where `word` stands: `find`, and the slice behind it.
unfoldable pub after : Bytes → Bytes → Option Bytes
after word [] = strip_prefix word []
after word (c ∷ s) = let rest = after word s in or_else (strip_prefix word (c ∷ s)) rest

-- The longest prefix whose bytes pass, `split(p).next()` of the bytes that do not.
unfoldable pub leading : (ℕ → Bool) → Bytes → Bytes
leading p [] = []
leading p (c ∷ s) = let rest = leading p s in if p c then c ∷ rest else []

unfoldable pub numeric_prefix : Bytes → Option Bytes
numeric_prefix token =
    let digits = leading is_digit token in if is_empty digits then none else some digits

-- `parts.next()?` twice
abbrev pub first_two : List Bytes → Option (Bytes × Bytes)
first_two (a ∷ b ∷ parts) = some (a, b)
first_two _ = none

unfoldable pub usb_endpoint : Bytes → Option Bytes
usb_endpoint address = do
  rest ← after (codes "usb:") address
  parts ← first_two (split b':' rest)
  bus ← numeric_prefix parts.0
  device ← numeric_prefix parts.1
  some (codes "usb:" ++ bus ++ codes ":" ++ device)

abbrev pub in_host : ℕ → Bool
in_host c = not (c == b'/' || c == b'?' || c == b'#')

-- `trim_end_matches('.')`
unfoldable pub trim_dots : Bytes → Bytes
trim_dots [] = []
trim_dots (c ∷ s) = let rest = trim_dots s in if is_empty rest && c == b'.' then [] else c ∷ rest

unfoldable pub url_host : Bytes → Option Bytes
url_host address = do
  rest ← after (codes "://") address
  let host = leading in_host rest
  if is_empty host then none else some (trim_dots host)

-- `split` at every byte that is no digit and no dot
abbrev pub push_byte : ℕ → List Bytes → List Bytes
push_byte c [] = (c ∷ []) ∷ []
push_byte c (token ∷ tokens) = (c ∷ token) ∷ tokens

unfoldable pub tokens : Bytes → List Bytes
tokens [] = [] ∷ []
tokens (c ∷ s) =
    let rest = tokens s in if is_digit c || c == b'.' then push_byte c rest else [] ∷ rest

abbrev pub is_octet : Bytes → Bool
is_octet octet =
    not (is_empty octet) && (elim (parse_uint max_u8 octet) [ none ↦ false | some _ ↦ true ])

unfoldable pub is_quad : Bytes → Bool
is_quad token = let octets = split b'.' token in length octets == 4 && all is_octet octets

abbrev pub find_quad : List Bytes → Option Bytes
find_quad [] = none
find_quad (token ∷ rest) = if is_quad token then some token else find_quad rest

unfoldable pub ipv4 : Bytes → Option Bytes
ipv4 address = find_quad (tokens address)

abbrev pub or_whole : Bytes → Option Bytes → Bytes
or_whole address none = address
or_whole address (some key) = key

-- `physical_address`, of an address that is trimmed and in lower case
unfoldable pub physical_address : Bytes → Bytes
physical_address address =
    or_whole address (or_else (or_else (usb_endpoint address) (url_host address)) (ipv4 address))
