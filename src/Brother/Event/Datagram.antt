-- ===== src/Brother/Event/Datagram.antt =====
-- scanbus-backend-brother/src/skey/event.rs: which datagrams are key presses.
use scanbus_service.Common.{
  ◌≡◌, ◌⊎◌, inl, inr, refl, ap, ◌∙◌, [], ◌∷◌, ◌++◌, Bytes, IsByte, All, arith,
}
use scanbus_service.Common.Result.{ok, >>=-eq-ok}
use scanbus_service.Brother.Event
use scanbus_service.Brother.Event.{
  Event, KeyPress, key_press, internal, InternalCommand, parse_press, from_code, event_of,
}
use scanbus_service.Brother.Event.Press.{IsPress, parse_press_iff}
use scanbus_service.Brother.Frame
use scanbus_service.Brother.Frame.{EventError, Frame, to_datagram, unknown_frame}
use scanbus_service.Brother.Frame.Wire.{parse_sound}

event_of_press :
    (frame : Frame) (press : KeyPress)
    → event_of frame ≡ ok (key_press press)
    → (frame.id ≡ 1) × (frame.code ≡ 1) × (parse_press frame.payload ≡ ok press)
unfolding event_of
event_of_press frame press h = ground arith

-- The datagram of a key press with this payload.
abbrev pub press_datagram : Bytes → Bytes
press_datagram payload = to_datagram (record { id = 1; code = 1; payload = payload })

pressed_frame :
    (frame : Frame)
    → frame.id ≡ 1
    → frame.code ≡ 1
    → to_datagram frame ≡ press_datagram frame.payload
unfolding to_datagram
pressed_frame frame h k = rw (h, k) refl

-- A datagram of bytes that is read as a key press has the header of one, a payload whose fields say so,
-- and at most one NUL behind it.
pub parse-IsPress :
    (datagram : Bytes) (press : KeyPress)
    → All IsByte datagram
    → Event.parse datagram ≡ ok (key_press press)
    → (payload : Bytes) × IsPress payload press
      × ((datagram ≡ press_datagram payload) ⊎ (datagram ≡ press_datagram payload ++ 0 ∷ []))
unfolding Event.parse
parse-IsPress datagram press bytes h =
    let (frame, e, h1) = >>=-eq-ok (Frame.parse datagram) event_of h in
    let (sendable, wire) = parse_sound datagram frame bytes e in
    let (id, code, read) = event_of_press frame press h1 in
    let same = pressed_frame frame id code in
    (
      frame.payload,
      (parse_press_iff frame.payload press).0 read,
      elim wire [
        | inl exact ↦ inl (exact ∙ same)
        | inr more ↦ inr (more ∙ ap (λ d. d ++ 0 ∷ []) same)
      ],
    )
