-- ===== src/Core/Path/Bounds.antt =====
-- scanbus-core/src/path.rs: the length of a path.
use scanbus_service.Common.{ℕ, ◌≤◌, ◌+◌, arith, length, length-append, ◌∷◌, ◌++◌, Bytes}
use scanbus_service.Common.Decimal.{print, length-print}
use scanbus_service.Core.Id.{ScannerId}
use scanbus_service.Core.Id.Charset.{IsValid}
use scanbus_service.Core.Profile
use scanbus_service.Core.Profile.{ProfileKind}
use scanbus_service.Core.Path.{
  ◌/:◌, button_element, job_element, manager, scanner, button, job, profile,
}
use scanbus_service.Core.Path.Objects.{
  Object, the_manager, scanner_object, button_object, job_object, profile_object, path_of, IsLegal,
}

length-numbered :
    (id : ScannerId) (word : Bytes) (n k : ℕ)
    → IsValid id
    → length (print n) ≤ k
    → length (id.value /: word /: print n) ≤ 200 + 1 + length word + 1 + k
length-numbered id word n k v h = omega (
  arith,
  v.fits,
  length-append {0} id.value (47 ∷ (word ++ 47 ∷ print n)),
  length-append {0} word (47 ∷ print n),
)

-- No legal object's path is longer than the 246 bytes that the module's comment computes.
pub length-path_of : (o : Object) → IsLegal o → length (path_of o) ≤ 246
unfolding path_of
length-path_of the_manager h = unfold manager in omega arith
length-path_of (scanner_object id) h = unfold scanner in omega (arith, h.fits)
length-path_of (button_object id n) h =
    unfold button in
    omega (arith, length-numbered id button_element n 10 h.0 (length-print n 9 (omega arith)))
length-path_of (job_object id n) h =
    unfold job in
    omega (arith, length-numbered id job_element n 20 h.0 (length-print n 19 (omega arith)))
length-path_of (profile_object ProfileKind.image) h = unfold profile Profile.as_str in omega arith
length-path_of (profile_object ProfileKind.document) h =
    unfold profile Profile.as_str in omega arith
length-path_of (profile_object ProfileKind.email) h = unfold profile Profile.as_str in omega arith
length-path_of (profile_object ProfileKind.ocr) h = unfold profile Profile.as_str in omega arith
