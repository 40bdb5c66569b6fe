-- ===== src/Brother/Frame.antt =====
-- scanbus-backend-brother/src/skey/event.rs: the four-byte header in front of every payload.
pub mod Wire
use scanbus_service.Common.{
  ℕ, ◌+◌, ◌*◌, ◌/◌, ◌%◌, Bool, true, false, ◌&&◌, Option, none, some, List, [], ◌∷◌, Bytes, length,
  take, drop, ◌==◌, ◌||◌, if◌then◌else◌,
}
use scanbus_service.Common.Result.{Result, ok, err, ◌>>=◌, ok_or}
use scanbus_service.Common.Utf8.{is_utf8}

pub data EventError : Type 0 where
  too_short : ℕ → EventError
  length_mismatch : (declared actual : ℕ) → EventError
  embedded_nul : EventError
  not_utf8 : EventError
  unknown_frame : (id code : ℕ) → EventError
  missing_field : Bytes → EventError
  bad_field : (name value : Bytes) → EventError

pub record Frame : Type 0 where
  pub id : ℕ
  pub code : ℕ
  pub payload : Bytes

-- `payload.contains(&0)`
unfoldable pub has_nul : Bytes → Bool
has_nul [] = false
has_nul (b ∷ s) = b == 0 || has_nul s

abbrev pub is_nul : Bytes → Bool
is_nul (b ∷ []) = b == 0
is_nul _ = false

-- The body as far as it is declared; one NUL may follow.
unfoldable pub declared_part : ℕ → Bytes → Result Bytes EventError
declared_part declared body =
    if length body == declared
    then ok body
    else if length body == declared + 1 && is_nul (drop declared body)
    then ok (take declared body)
    else err (length_mismatch declared (length body))

unfoldable pub checked : ℕ → ℕ → Bytes → Result Frame EventError
checked id code payload =
    if has_nul payload
    then err embedded_nul
    else if is_utf8 payload
    then ok (record { id = id; code = code; payload = payload })
    else err not_utf8

-- `Frame::parse`
unfoldable pub parse : Bytes → Result Frame EventError
parse (id ∷ high ∷ low ∷ code ∷ body) = declared_part (high * 256 + low) body >>= checked id code
parse datagram = err (too_short (length datagram))

-- `Frame::to_datagram`, with the length cut to its two bytes.
unfoldable pub to_datagram : Frame → Bytes
to_datagram frame =
    frame.id
    ∷ (length frame.payload / 256) % 256
    ∷ length frame.payload % 256
    ∷ frame.code
    ∷ frame.payload
