-- ===== src/Brother/Frame/Wire.antt =====
-- scanbus-backend-brother/src/skey/event.rs: frames and their datagrams.
use scanbus_service.Common.{
  ℕ, zero, suc, ◌+◌, ◌*◌, ◌/◌, ◌%◌, ◌<◌, ◌≡◌, refl, ap, sym, ◌∙◌, ◌⊎◌, inl, inr, true, false, [],
  ◌∷◌, ◌++◌, Bytes, IsByte, All, length, take, drop, length-append, take-length-append,
  drop-length-append, Bool-cases, ◌==◌, arith,
}
use scanbus_service.Common.Result.{ok, >>=-eq-ok}
use scanbus_service.Common.Utf8.{is_utf8}
use scanbus_service.Brother.Frame.{
  Frame, has_nul, is_nul, declared_part, checked, parse, to_datagram,
}

-- The payload of a frame is text without a NUL that the two length bytes can count.
pub record IsSendable (frame : Frame) : Type 0 where
  pub counted : length frame.payload < 65536
  pub no_nul : has_nul frame.payload ≡ false
  pub text : is_utf8 frame.payload ≡ true

checked-ok :
    (frame : Frame) → IsSendable frame → checked frame.id frame.code frame.payload ≡ ok frame
unfolding checked
checked-ok frame h = rw (h.no_nul, h.text) refl

declared_part-exact : (body : Bytes) (n : ℕ) → n ≡ length body → declared_part n body ≡ ok body
unfolding declared_part
declared_part-exact body n h = ground arith

declared_part-nul :
    (body : Bytes) (n : ℕ) → n ≡ length body → declared_part n (body ++ 0 ∷ []) ≡ ok body
unfolding declared_part
declared_part-nul body n h =
    let longer : (length body + 1 == length body) ≡ false = ground arith in
    let same : (length body + 1 == length body + 1) ≡ true = ground arith in
    rw
      (
        h,
        length-append body (0 ∷ []),
        longer,
        same,
        drop-length-append body (0 ∷ []),
        take-length-append body (0 ∷ []),
      )
      refl

length_bytes : (n : ℕ) → n < 65536 → (n / 256) % 256 * 256 + n % 256 ≡ n
length_bytes n h = omega arith

-- A frame whose payload is text without a NUL and shorter than 65536 bytes is read back from its
-- datagram, also if one NUL follows the datagram.
pub parse-to_datagram :
    (frame : Frame)
    → IsSendable frame
    → (parse (to_datagram frame) ≡ ok frame) × (parse (to_datagram frame ++ 0 ∷ []) ≡ ok frame)
unfolding parse to_datagram
parse-to_datagram frame h =
    let n = length_bytes (length frame.payload) h.counted in
    (
      rw (declared_part-exact frame.payload _ n) (checked-ok frame h),
      rw (declared_part-nul frame.payload _ n) (checked-ok frame h),
    )

is_nul-drop :
    (n : ℕ) (body : Bytes)
    → is_nul (drop n body) ≡ true
    → (body ≡ take n body ++ 0 ∷ []) × (length (take n body) ≡ n)
is_nul-drop zero [] h = absurd (cc)
is_nul-drop zero (b ∷ []) h = (ground arith, refl)
is_nul-drop zero (b ∷ c ∷ body) h = absurd (cc)
is_nul-drop (suc n) [] h = absurd (cc)
is_nul-drop (suc n) (b ∷ body) h =
    let (e, f) = is_nul-drop n body h in (ap (λ t. b ∷ t) e, ap (λ k. suc k) f)

declared_part_sound :
    (n : ℕ) (body payload : Bytes)
    → declared_part n body ≡ ok payload
    → (n ≡ length payload) × ((body ≡ payload) ⊎ (body ≡ payload ++ 0 ∷ []))
unfolding declared_part
declared_part_sound n body payload h = elim (Bool-cases (length body == n)) [
  | inl exact ↦ (ground arith, inl (ground arith))
  | inr longer ↦ elim (Bool-cases (is_nul (drop n body))) [
    | inl nul ↦
        let (e, f) = is_nul-drop n body nul in
        let same : take n body ≡ payload = ground arith in
        (sym f ∙ ap (λ t. length t) same, inr (e ∙ ap (λ t. t ++ 0 ∷ []) same))
    | inr other ↦ absurd (ground arith)
  ]
]

checked_sound :
    (id code : ℕ) (payload : Bytes) (frame : Frame)
    → checked id code payload ≡ ok frame
    → (frame ≡ record { id = id; code = code; payload = payload })
      × (has_nul payload ≡ false)
      × (is_utf8 payload ≡ true)
unfolding checked
checked_sound id code payload frame h = ground arith

bytes_length :
    (high low n : ℕ)
    → high < 256
    → low < 256
    → high * 256 + low ≡ n
    → ((n / 256) % 256 ≡ high) × (n % 256 ≡ low) × (n < 65536)
bytes_length high low n h l e = (omega arith, omega arith, omega arith)

-- A datagram of bytes that is read as a frame is that frame's datagram, with at most one NUL behind
-- it, and the frame's payload is text without a NUL, shorter than 65536 bytes.
pub parse_sound :
    (datagram : Bytes) (frame : Frame)
    → All IsByte datagram
    → parse datagram ≡ ok frame
    → IsSendable frame × ((datagram ≡ to_datagram frame) ⊎ (datagram ≡ to_datagram frame ++ 0 ∷ []))
unfolding parse to_datagram
parse_sound (id ∷ high ∷ low ∷ code ∷ body) frame (_, (hh, (hl, _))) h =
    let (payload, e, c) = >>=-eq-ok (declared_part (high * 256 + low) body) (checked id code) h in
    let (n, tail) = declared_part_sound _ body payload e in
    let (is, nul, text) = checked_sound id code payload frame c in
    let (top, bottom, small) = bytes_length high low (length payload) hh hl n in
    (
      record { counted = rw (is) small; no_nul = rw (is) nul; text = rw (is) text },
      rw (is, top, bottom)
          (elim tail [ inl same ↦ inl (rw (same) refl) | inr more ↦ inr (rw (more) refl) ]),
    )
parse_sound datagram frame bytes h = absurd (cc)
