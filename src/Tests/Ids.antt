-- ===== src/Tests/Ids.antt =====
-- Scanner ids and object paths on the documented examples.
use scanbus_service.Common.{◌≡◌, refl, Bytes, codes, arith}
use scanbus_service.Common.Utf8.{is_utf8}
use scanbus_service.Core.Id.{ScannerId, new, from_backend, escape_component}
use scanbus_service.Core.Id.Charset.{IsValid, new-IsValid}
use scanbus_service.Core.Id.Escape.{from_backend-injective}
use scanbus_service.Core.Path.Objects.{Object, path_of, IsLegal, reading, expected, reading-path_of}

abbrev usb : Bytes
usb = codes "usb:001"

abbrev usb_id : ScannerId
usb_id = record { value = codes "mock_usb_3A001" }

usb_id-IsValid : IsValid usb_id
unfolding new
usb_id-IsValid = new-IsValid (codes "mock_usb_3A001") usb_id refl

from_backend-injective_example : (codes "mock" ≡ codes "mock") × (usb ≡ usb)
unfolding is_utf8 from_backend new escape_component
from_backend-injective_example =
    from_backend-injective (codes "mock") (codes "mock") usb usb {i = usb_id} refl refl refl refl

abbrev key : Object
key = Object.button_object usb_id 3

key-IsLegal : IsLegal key
key-IsLegal = (usb_id-IsValid, omega arith)

abbrev work : Object
work = Object.job_object usb_id 12

work-IsLegal : IsLegal work
work-IsLegal = (usb_id-IsValid, omega arith)

reading-path_of_example : reading (path_of key) ≡ expected key
reading-path_of_example = reading-path_of key key-IsLegal
