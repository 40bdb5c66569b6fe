-- ===== src/Brother/Register/UserNames.antt =====
-- scanbus-backend-brother/src/skey/register.rs: which names a panel accepts.
use scanbus_service.Common.{
  ℕ, ◌≤◌, ◌≡◌, ◌↔◌, ◌⊎◌, refl, ap, Bool, true, false, none, some, [], ◌∷◌, Bytes, all, filter, take,
  length, is_alphanumeric, arith, inl, inr, suc, zero,
}
use scanbus_service.Common.Result.{ok, to_option}
use scanbus_service.Brother.Register.{max_user_len, UserName, new_name, sanitised}

-- One to fifteen ASCII letters and digits.
abbrev pub IsName : Bytes → Type 0
IsName name = (1 ≤ length name) × (length name ≤ max_user_len) × (all is_alphanumeric name ≡ true)

pub new_name-IsName : (name : Bytes) → IsName name → new_name name ≡ ok (record { text = name })
unfolding new_name
new_name-IsName name h = ground arith

new_name_sound :
    (name : Bytes) (user : UserName)
    → new_name name ≡ ok user
    → IsName name × (user ≡ record { text = name })
unfolding new_name
new_name_sound name user h = ground arith

take-all : (p : ℕ → Bool) (n : ℕ) (s : Bytes) → all p s ≡ true → all p (take n s) ≡ true
take-all p zero s h = refl
take-all p (suc n) [] h = refl
take-all p (suc n) (c ∷ s) h = ground (arith, take-all p n s)

kept-all :
    (p : ℕ → Bool) (c : ℕ) (rest : Bytes) (verdict : Bool)
    → p c ≡ verdict
    → all p rest ≡ true
    → all p (elim verdict [ true ↦ c ∷ rest | false ↦ rest ]) ≡ true
kept-all p c rest true e h = ground arith
kept-all p c rest false e h = h

filter-all : (p : ℕ → Bool) (s : Bytes) → all p (filter p s) ≡ true
filter-all p [] = refl
filter-all p (c ∷ s) = kept-all p c (filter p s) (p c) refl (filter-all p s)

filter_same : (p : ℕ → Bool) (s : Bytes) → all p s ≡ true → filter p s ≡ s
filter_same p [] h = refl
filter_same p (c ∷ s) h = ground (arith, filter_same p s)

take_same : (n : ℕ) (s : Bytes) → length s ≤ n → take n s ≡ s
take_same zero [] h = refl
take_same zero (c ∷ s) h = absurd (omega arith)
take_same (suc n) [] h = refl
take_same (suc n) (c ∷ s) h = ap (λ t. c ∷ t) (take_same n s (omega arith))

take_short : (n : ℕ) (s : Bytes) → length (take n s) ≤ n
take_short zero s = omega arith
take_short (suc n) [] = omega arith
take_short (suc n) (c ∷ s) = omega (arith, take_short n s)

kept-IsName :
    (c : ℕ) (s : Bytes) → all is_alphanumeric (c ∷ s) ≡ true → IsName (take max_user_len (c ∷ s))
kept-IsName c s h =
    (omega arith, take_short max_user_len (c ∷ s), take-all is_alphanumeric max_user_len (c ∷ s) h)

-- The name that a list of letters and digits gives.
from_kept :
    (kept : Bytes)
    → all is_alphanumeric kept ≡ true
    → ((kept ≡ []) × (to_option (new_name (take max_user_len kept)) ≡ none))
      ⊎ ((user : UserName) × (to_option (new_name (take max_user_len kept)) ≡ some user)
          × IsName user.text
          × (user.text ≡ take max_user_len kept))
from_kept [] h = inl (refl, unfold new_name in refl)
from_kept (c ∷ s) h =
    let good = kept-IsName c s h in
    inr (
      record { text = take max_user_len (c ∷ s) },
      rw (new_name-IsName (take max_user_len (c ∷ s)) good) refl,
      good,
      refl,
    )

-- Sanitising gives no name exactly if the candidate has no ASCII letter or digit, and otherwise the
-- first fifteen of them, which are a name.
pub sanitised_lem :
    (candidate : Bytes)
    → ((filter is_alphanumeric candidate ≡ []) × (sanitised candidate ≡ none))
      ⊎ ((user : UserName) × (sanitised candidate ≡ some user)
          × IsName user.text
          × (user.text ≡ take max_user_len (filter is_alphanumeric candidate)))
unfolding sanitised
sanitised_lem candidate =
    from_kept (filter is_alphanumeric candidate) (filter-all is_alphanumeric candidate)

-- Sanitising leaves a name as it is.
pub sanitised-IsName : (name : Bytes) → IsName name → sanitised name ≡ some (record { text = name })
unfolding sanitised
sanitised-IsName name h =
    rw
      (
        filter_same is_alphanumeric name h.2,
        take_same max_user_len name h.1,
        new_name-IsName name h,
      )
      refl

-- A text is accepted as a name exactly if it is one to fifteen ASCII letters and digits, and the name is
-- the text unchanged.
pub new_name_iff :
    (name : Bytes) (user : UserName)
    → (new_name name ≡ ok user) ↔ (IsName name × (user ≡ record { text = name }))
new_name_iff name user = (new_name_sound name user, λ h. rw (h.1) (new_name-IsName name h.0))
