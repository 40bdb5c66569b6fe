-- ===== src/Brother/Register/Value.antt =====
-- scanbus-backend-brother/src/skey/register.rs: the string of a registration, written and read back.
use scanbus_service.Common.{
  ℕ, ◌≤◌, ◌<◌, ◌≡◌, ◌≢◌, refl, sym, true, false, some, List, [], ◌∷◌, ◌++◌, Bytes, Lacks, codes,
  beq, all, all→All, is_alphanumeric, split_once-append, strip_prefix, strip_last-append, arith,
  All-append, All-imp, append_assoc,
}
use scanbus_service.Common.Decimal.{print, max_u16, max_u32, parse-print, print-Lacks, IsDigit}
use scanbus_service.Common.Result.{ok}
use scanbus_service.Brother.Fields.{
  field, rendered, semicolon, equals, quote, unquote, AreSeparable, first_named, field-rendered,
}
use scanbus_service.Brother.Function
use scanbus_service.Brother.Function.{
  Function, file, image, ocr, email, from_token, from_token-as_str,
}
use scanbus_service.Brother.Register.{
  Registration, from_secs, as_secs, print_address, value_text, value, parse,
}
use scanbus_service.Brother.Register.UserNames.{IsName, new_name-IsName}
use scanbus_service.Brother.Register.Host.{
  IsAddress, print_address-Lacks, parse_address-print_address,
}

-- What the types of the source say of a registration, and a lease that `value` accepts.
abbrev pub IsRegistration : Registration → Type 0
IsRegistration r =
    IsName r.user.text
    × IsAddress r.host
    × (r.port ≤ max_u16)
    × (1 ≤ as_secs r.duration)
    × (as_secs r.duration ≤ max_u32)

abbrev quoted : Bytes → Bytes
quoted text = quote ∷ (text ++ quote ∷ [])

abbrev host_text : Registration → Bytes
host_text r = print_address r.host ++ b':' ∷ print r.port

abbrev fields : Registration → List (Bytes × Bytes)
fields r =
    (codes "TYPE", codes "BR")
    ∷ (codes "BUTTON", codes "SCAN")
    ∷ (codes "USER", quoted r.user.text)
    ∷ (codes "FUNC", Function.as_str r.function)
    ∷ (codes "HOST", host_text r)
    ∷ (codes "APPNUM", print (Function.appnum r.function))
    ∷ (codes "DURATION", print (as_secs r.duration))
    ∷ (codes "BRID", [])
    ∷ []

value_text-rendered : (r : Registration) → value_text r ≡ rendered (fields r)
unfolding value_text rendered
value_text-rendered r =
    rw
      (
        append_assoc r.user.text (quote ∷ []) _,
        append_assoc (print_address r.host) (b':' ∷ print r.port) _,
      )
      refl

digits-Lacks : (c n : ℕ) → b'9' < c → Lacks c (print n)
digits-Lacks c n h = print-Lacks c n (λ d. omega (arith, d.1))

name-Lacks :
    (c : ℕ) (name : Bytes)
    → is_alphanumeric c ≡ false
    → all is_alphanumeric name ≡ true
    → Lacks c name
name-Lacks c name other h =
    All-imp (λ b. is_alphanumeric b ≡ true) (λ b. b ≢ c) (λ b yes_b e. absurd (cc)) name
      (all→All is_alphanumeric name h)

function-Lacks : (c : ℕ) (f : Function) → is_alphanumeric c ≡ false → Lacks c (Function.as_str f)
unfolding Function.as_str
function-Lacks c file h = name-Lacks c (codes "FILE") h refl
function-Lacks c image h = name-Lacks c (codes "IMAGE") h refl
function-Lacks c ocr h = name-Lacks c (codes "OCR") h refl
function-Lacks c email h = name-Lacks c (codes "EMAIL") h refl

host_text-Lacks :
    (r : Registration) (c : ℕ) → c ≢ b'.' → c ≢ b':' → ((d : IsDigit c) → ⊥) → Lacks c (host_text r)
host_text-Lacks r c h k d =
    All-append (λ b. b ≢ c) (print_address r.host) _ (print_address-Lacks r.host c d h)
      (λ e. k (sym e), print-Lacks c r.port d)

unquote-quoted : (text : Bytes) → unquote (quoted text) ≡ text
unfolding unquote strip_prefix
unquote-quoted text = rw (strip_last-append quote text) refl

unquote-Lacks : (text : Bytes) → Lacks quote text → unquote text ≡ text
unfolding unquote strip_prefix
unquote-Lacks [] h = refl
unquote-Lacks (c ∷ text) (hc, h) = ground arith

entry :
    (name value : Bytes)
    → all is_alphanumeric name ≡ true
    → Lacks semicolon value
    → Lacks equals name × Lacks semicolon name × Lacks semicolon value
entry name value h lacks = (name-Lacks equals name refl h, name-Lacks semicolon name refl h, lacks)

fields-AreSeparable : (r : Registration) → IsRegistration r → AreSeparable (fields r)
fields-AreSeparable r (name, _, _, _, _) =
    let user_lacks : Lacks semicolon (quoted r.user.text) = (
      ground arith,
      All-append (λ b. b ≢ semicolon) r.user.text (quote ∷ [])
          (name-Lacks semicolon r.user.text refl name.2) (ground arith, tt),
    ) in
    (
      entry (codes "TYPE") (codes "BR") refl (name-Lacks semicolon (codes "BR") refl refl),
      (
        entry (codes "BUTTON") (codes "SCAN") refl (name-Lacks semicolon (codes "SCAN") refl refl),
        (
          entry (codes "USER") (quoted r.user.text) refl user_lacks,
          (
            entry (codes "FUNC") (Function.as_str r.function) refl
                (function-Lacks semicolon r.function refl),
            (
              entry (codes "HOST") (host_text r) refl (
                  host_text-Lacks r semicolon (ground arith) (ground arith)
                    (λ d. omega (arith, d.1))),
              (
                entry (codes "APPNUM") (print (Function.appnum r.function)) refl
                    (digits-Lacks semicolon (Function.appnum r.function) (omega arith)),
                (
                  entry (codes "DURATION") (print (as_secs r.duration)) refl
                      (digits-Lacks semicolon (as_secs r.duration) (omega arith)),
                  (entry (codes "BRID") [] refl tt, tt),
                ),
              ),
            ),
          ),
        ),
      ),
    )

-- What `field` finds in the string of a registration.
found :
    (r : Registration) (key : Bytes)
    → IsRegistration r
    → field (value_text r) key ≡ first_named key (fields r)
found r key h = rw (value_text-rendered r) (field-rendered (fields r) key (fields-AreSeparable r h))

found_type :
    (r : Registration) → IsRegistration r → field (value_text r) (codes "TYPE") ≡ some (codes "BR")
unfolding beq
found_type r h =
    rw
      (
        found r (codes "TYPE") h,
        unquote-Lacks (codes "BR") (name-Lacks quote (codes "BR") refl refl),
      )
      refl

found_user :
    (r : Registration) → IsRegistration r → field (value_text r) (codes "USER") ≡ some r.user.text
unfolding beq
found_user r h = rw (found r (codes "USER") h, unquote-quoted r.user.text) refl

found_function :
    (r : Registration)
    → IsRegistration r
    → field (value_text r) (codes "FUNC") ≡ some (Function.as_str r.function)
unfolding beq
found_function r h =
    rw
      (
        found r (codes "FUNC") h,
        unquote-Lacks (Function.as_str r.function) (function-Lacks quote r.function refl),
      )
      refl

found_host :
    (r : Registration) → IsRegistration r → field (value_text r) (codes "HOST") ≡ some (host_text r)
unfolding beq
found_host r h =
    rw
      (
        found r (codes "HOST") h,
        unquote-Lacks (host_text r)
            (host_text-Lacks r quote (ground arith) (ground arith) (λ d. omega (arith, d.0))),
      )
      refl

found_duration :
    (r : Registration)
    → IsRegistration r
    → field (value_text r) (codes "DURATION") ≡ some (print (as_secs r.duration))
unfolding beq
found_duration r h =
    rw
      (
        found r (codes "DURATION") h,
        unquote-Lacks (print (as_secs r.duration))
            (print-Lacks quote (as_secs r.duration) (λ d. omega (arith, d.0))),
      )
      refl

-- The registration with the lease in whole seconds.
abbrev pub whole_seconds : Registration → Registration
whole_seconds r = record r { duration = from_secs (as_secs r.duration) }

pub parse-value_text :
    (r : Registration) → IsRegistration r → parse (value_text r) ≡ ok (whole_seconds r)
unfolding parse beq
parse-value_text r h =
    let (name, address, port, _, seconds) = h in
    rw
      (
        found_type r h,
        found_user r h,
        new_name-IsName r.user.text name,
        found_function r h,
        from_token-as_str r.function,
        found_host r h,
        split_once-append b':' (print_address r.host) (print r.port)
            (print_address-Lacks r.host b':' (λ d. omega (arith, d.1)) (ground arith)),
        parse-print max_u16 r.port port,
        parse_address-print_address r.host address,
        found_duration r h,
        parse-print max_u32 (as_secs r.duration) seconds,
      )
      refl

-- A registration with a valid name and a lease of 1 to 2^32 - 1 seconds has a string, which is read
-- back as that registration, up to the fraction of a second in the lease.
pub parse-value :
    (r : Registration)
    → IsRegistration r
    → (text : Bytes) × (value r ≡ ok text) × (parse text ≡ ok (whole_seconds r))
unfolding value
parse-value r h = (value_text r, ground arith, parse-value_text r h)
