-- ===== src/Hid/Layout.antt =====
-- The descriptors of src/hid.rs against the packets that the keyboard sends.
use nusbip.Common.{
  ℕ, ◌+◌, ◌*◌, ◌/◌, ◌%◌, ◌^◌, ◌<◌, List, [], ◌∷◌, true, ◌==◌, if◌then◌else◌, length, get_or, ok,
  ◌≡◌, refl, arith,
}
use nusbip.Endpoint.{UsbEndpoint, is_ep0}
use nusbip.Setup.{SetupPacket}
use nusbip.Verify.{verify_descriptor, none_left, piece, verify-Pieces}
use nusbip.Hid.{
  KeyboardReport, Keyboard, idle, hid_descriptor_from, keyboard_control, keyboard_poll,
  keyboard_urb, keyboard_class_descriptor, keyboard_report_descriptor,
}

-- The bits of an input report, by the rules of the HID standard for items with one byte of contents: an
-- Input item (0x81) adds as many fields as the last Report Count (0x95) says, each of as many bits as the
-- last Report Size (0x75) says.
abbrev pub input_bits : (size count : ℕ) → List ℕ → ℕ
input_bits size count [] = 0
input_bits size count (item ∷ []) = 0
input_bits size count (item ∷ v ∷ rest) =
    (if item == 0x81 then size * count else 0)
    + input_bits (if item == 0x75 then v else size) (if item == 0x95 then v else count) rest

-- With the report descriptor of `new_keyboard`, a key of a report of six goes down in a packet of just
-- the size that the descriptor lays down, and up in one that is two bytes shorter.
pub poll_lengths :
    (k : Keyboard) (r : KeyboardReport) (rest : List KeyboardReport)
    → k.report_descriptor ≡ keyboard_report_descriptor
    → length r.keys ≡ 6
    → let (down, k') = keyboard_poll idle (r ∷ rest) k in
      let (up, k'') = keyboard_poll k'.state k'.pending_key_events k' in
      (8 * length down ≡ input_bits 0 0 k.report_descriptor)
      × (8 * length up + 16 ≡ input_bits 0 0 k.report_descriptor)
unfolding keyboard_poll
poll_lengths k r rest d n = rw d (omega (arith, n), refl)

-- A host that asks a keyboard for its report descriptor gets as many bytes as its class-specific
-- descriptor announces, if these are less than 2 ^ 16, and `verify_descriptor` accepts the latter.
pub keyboard_descriptors :
    (ep : UsbEndpoint) (setup : SetupPacket) (k : Keyboard)
    → is_ep0 ep ≡ true
    → setup.request_type ≡ 0x81
    → setup.request ≡ 6
    → setup.value / 2 ^ 8 ≡ 0x22
    → length k.report_descriptor < 2 ^ 16
    → (bytes : List ℕ) × (keyboard_urb ep setup k ≡ (ok bytes, k))
      × (length bytes
          ≡ get_or (keyboard_class_descriptor k) 7 0
            + 256 * get_or (keyboard_class_descriptor k) 8 0)
      × (verify_descriptor (keyboard_class_descriptor k) ≡ ok tt)
unfolding keyboard_urb keyboard_control hid_descriptor_from keyboard_class_descriptor
keyboard_descriptors ep setup k ep0 t q v small = (
  k.report_descriptor,
  rw (ep0, t, q, v) refl,
  omega arith,
  verify-Pieces (keyboard_class_descriptor k) (
      piece 9
        (0x21
          ∷ 0x11
          ∷ 0x01
          ∷ 0x00
          ∷ 0x01
          ∷ 0x22
          ∷ (length k.report_descriptor % 2 ^ 8)
          ∷ (length k.report_descriptor / 2 ^ 8 % 2 ^ 8)
          ∷ [])
        [] refl none_left),
)
