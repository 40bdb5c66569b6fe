-- ===== src/Brother/Function.antt =====
-- scanbus-backend-brother/src/skey/function.rs: the four panel entries and their numberings.
use scanbus_service.Common.{
  ℕ, ◌≡◌, ◌↔◌, refl, Option, some, List, [], ◌∷◌, Bytes, codes, beq, beq→eq, ◌==◌, find, arith,
}

pub data Function : Type 0 where
  file image ocr email : Function

-- `Function::ALL`
abbrev pub variants : List Function
variants = file ∷ image ∷ ocr ∷ email ∷ []

unfoldable pub as_str : Function → Bytes
as_str file = codes "FILE"
as_str image = codes "IMAGE"
as_str ocr = codes "OCR"
as_str email = codes "EMAIL"

unfoldable pub appnum : Function → ℕ
appnum image = 1
appnum email = 2
appnum ocr = 3
appnum file = 5

unfoldable pub button_index : Function → ℕ
button_index file = 0
button_index image = 1
button_index ocr = 2
button_index email = 3

unfoldable pub device_label : Function → Bytes
device_label file = codes "Scan to File"
device_label image = codes "Scan to Image"
device_label ocr = codes "Scan to OCR"
device_label email = codes "Scan to E-mail"

unfoldable pub from_button_index : ℕ → Option Function
from_button_index index = find (λ f. button_index f == index) variants

unfoldable pub from_appnum : ℕ → Option Function
from_appnum number = find (λ f. appnum f == number) variants

unfoldable pub from_token : Bytes → Option Function
from_token token = find (λ f. beq (as_str f) token) variants

from_token→as_str : (s : Bytes) (f : Function) → from_token s ≡ some f → as_str f ≡ s
unfolding from_token
from_token→as_str s f h = ground (
  arith,
  beq→eq (as_str file) s,
  beq→eq (as_str image) s,
  beq→eq (as_str ocr) s,
  beq→eq (as_str email) s,
)

pub from_token-as_str : (f : Function) → from_token (as_str f) ≡ some f
unfolding from_token as_str beq
from_token-as_str file = refl
from_token-as_str image = refl
from_token-as_str ocr = refl
from_token-as_str email = refl

from_button_index_sound : (n : ℕ) (f : Function) → from_button_index n ≡ some f → button_index f ≡ n
unfolding from_button_index button_index
from_button_index_sound n f h = ground arith

from_appnum_sound : (n : ℕ) (f : Function) → from_appnum n ≡ some f → appnum f ≡ n
unfolding from_appnum appnum
from_appnum_sound n f h = ground arith

numbers-back :
    (f : Function)
    → (from_button_index (button_index f) ≡ some f) × (from_appnum (appnum f) ≡ some f)
unfolding from_button_index button_index from_appnum appnum
numbers-back file = (refl, refl)
numbers-back image = (refl, refl)
numbers-back ocr = (refl, refl)
numbers-back email = (refl, refl)

-- A token, a button index and an application number are read as a panel entry exactly if they are
-- that entry's own, so no two entries share one of them.
pub lookup_iff :
    (f : Function) (token : Bytes) (index number : ℕ)
    → ((from_token token ≡ some f) ↔ (as_str f ≡ token))
      × ((from_button_index index ≡ some f) ↔ (button_index f ≡ index))
      × ((from_appnum number ≡ some f) ↔ (appnum f ≡ number))
lookup_iff f token index number = (
  (from_token→as_str token f, λ e. rw (← e) (from_token-as_str f)),
  (from_button_index_sound index f, λ e. rw (← e) (numbers-back f).0),
  (from_appnum_sound number f, λ e. rw (← e) (numbers-back f).1),
)
