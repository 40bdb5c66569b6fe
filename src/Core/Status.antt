-- ===== src/Core/Status.antt =====
-- scanbus-core/src/model/state.rs: `Status`, the reachability of a scanner.
use scanbus_service.Common.{◌≡◌, ◌↔◌, refl, List, [], ◌∷◌, Bytes, codes, beq, beq→eq, arith}
use scanbus_service.Common.Result.{Result, ok}
use scanbus_service.Core.Names.{ParseError, parse_name}

pub data Status : Type 0 where
  offline online busy error : Status

-- `Status::ALL`
abbrev pub variants : List Status
variants = Status.offline ∷ Status.online ∷ Status.busy ∷ Status.error ∷ []

unfoldable pub as_str : Status → Bytes
as_str Status.offline = codes "offline"
as_str Status.online = codes "online"
as_str Status.busy = codes "busy"
as_str Status.error = codes "error"

-- `Status::from_str`
unfoldable pub parse : Bytes → Result Status ParseError
parse s = parse_name "Status" variants as_str s

parse-as_str : (v : Status) → parse (as_str v) ≡ ok v
unfolding parse as_str beq
parse-as_str offline = refl
parse-as_str online = refl
parse-as_str busy = refl
parse-as_str error = refl

parse→as_str : (s : Bytes) (v : Status) → parse s ≡ ok v → as_str v ≡ s
unfolding parse
parse→as_str s v h = ground (
  arith,
  beq→eq (as_str offline) s,
  beq→eq (as_str online) s,
  beq→eq (as_str busy) s,
  beq→eq (as_str error) s,
)

-- A string parses as a status exactly if it is the string of that status.
pub parse_iff : (s : Bytes) (v : Status) → (parse s ≡ ok v) ↔ (as_str v ≡ s)
parse_iff s v = (parse→as_str s v, λ e. rw (← e) (parse-as_str v))
