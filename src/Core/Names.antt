-- ===== src/Core/Names.antt =====
-- scanbus-core/src/error.rs: the error of a string that names no variant, and the lookup of one.
use scanbus_service.Common.{String, Bytes, List, find, beq}
use scanbus_service.Common.Result.{Result, ok_or}

pub record ParseError : Type 0 where
  pub kind : String
  pub value : Bytes

-- `ALL.into_iter().find(|v| v.as_str() == s).ok_or_else(|| ParseError::new(kind, s))`
abbrev pub parse_name : {A : Type 0} → String → List A → (A → Bytes) → Bytes → Result A ParseError
parse_name kind variants as_str s =
    ok_or (find (λ v. beq (as_str v) s) variants) (record { kind = kind; value = s })
