-- ===== src/Hid.antt =====
-- src/hid.rs: a HID keyboard that is simulated. Key codes and modifiers are bytes.
pub mod Keys
pub mod Delivery
pub mod Layout
use nusbip.Common.{
  ℕ, ◌+◌, ◌-◌, ◌/◌, ◌%◌, ◌^◌, List, [], ◌∷◌, Option, none, some, Bool, ◌&&◌, ◌||◌, ◌==◌, leb,
  if◌then◌else◌, length, replicate, Outcome, ok, panic,
}
use nusbip.Endpoint.{UsbEndpoint, Direction, in_dir, out_dir, direction, is_ep0}
use nusbip.Setup.{SetupPacket}

pub data KeyboardState : Type 0 where
  idle key_down : KeyboardState

pub record KeyboardReport : Type 0 where
  pub modifier : ℕ
  pub keys : List ℕ

pub record Keyboard : Type 0 where
  pub report_descriptor : List ℕ
  pub pending_key_events : List KeyboardReport
  pub state : KeyboardState

pub data HidDescriptorType : Type 0 where
  hid report physical : HidDescriptorType

unfoldable pub hid_descriptor_code : HidDescriptorType → ℕ
hid_descriptor_code hid = 0x21
hid_descriptor_code report = 0x22
hid_descriptor_code physical = 0x23

unfoldable pub hid_descriptor_from : ℕ → Option HidDescriptorType
hid_descriptor_from n =
    if n == 0x21
    then some hid
    else if n == 0x22
    then some report
    else if n == 0x23
    then some physical
    else none

-- The key code of an ASCII character; `b'1'..=b'9'` and the others are ranges of bytes.
unfoldable pub key_of_ascii : ℕ → Outcome ℕ
key_of_ascii ascii =
    if leb b'a' ascii && leb ascii b'z'
    then ok (ascii - b'a' + 4)
    else if leb b'1' ascii && leb ascii b'9'
    then ok (ascii - b'1' + 30)
    else if ascii == b'0'
    then ok 39
    else if ascii == 13 || ascii == 10
    then ok 40
    else panic

-- `UsbHidKeyboardReport::from_ascii`.
unfoldable pub from_ascii : ℕ → Outcome KeyboardReport
unfolding key_of_ascii
from_ascii ascii = elim (key_of_ascii ascii) [
  | ok key ↦ ok (record { modifier = 0; keys = key ∷ replicate 5 0 })
  | _ ↦ panic
]

abbrev pub keyboard_report_descriptor : List ℕ
keyboard_report_descriptor =
    0x05 ∷ 0x01 ∷ 0x09 ∷ 0x06 ∷ 0xa1 ∷ 0x01 ∷ 0x05 ∷ 0x07 ∷ 0x19 ∷ 0xe0 ∷ 0x29 ∷ 0xe7 ∷ 0x15 ∷ 0x00
    ∷ 0x25 ∷ 0x01 ∷ 0x75 ∷ 0x01 ∷ 0x95 ∷ 0x08 ∷ 0x81 ∷ 0x02 ∷ 0x95 ∷ 0x01 ∷ 0x75 ∷ 0x08 ∷ 0x81
    ∷ 0x01 ∷ 0x95 ∷ 0x06 ∷ 0x75 ∷ 0x08 ∷ 0x15 ∷ 0x00 ∷ 0x25 ∷ 0x65 ∷ 0x05 ∷ 0x07 ∷ 0x19 ∷ 0x00
    ∷ 0x29 ∷ 0x65 ∷ 0x81 ∷ 0x00 ∷ 0xc0 ∷ []

-- `UsbHidKeyboardHandler::new_keyboard`.
unfoldable pub new_keyboard : Keyboard
new_keyboard = record {
  report_descriptor = keyboard_report_descriptor;
  pending_key_events = [];
  state = idle;
}

-- Control transfers: a report descriptor is asked for, or SET_IDLE; any other request panics.
unfoldable pub keyboard_control : SetupPacket → Keyboard → Outcome (List ℕ)
unfolding hid_descriptor_from
keyboard_control setup k =
    if setup.request_type == 0b1000_0001 && setup.request == 0x06
    then (elim (hid_descriptor_from (setup.value / 2 ^ 8)) [
      | some report ↦ ok k.report_descriptor
      | _ ↦ panic
    ])
    else if setup.request_type == 0b0010_0001 && setup.request == 0x0a
    then ok []
    else panic

-- A poll: a key goes down if one is pending, and goes up at the next poll.
unfoldable pub keyboard_poll : KeyboardState → List KeyboardReport → Keyboard → List ℕ × Keyboard
keyboard_poll idle [] k = ([], k)
keyboard_poll idle (r ∷ rest) k =
    (r.modifier ∷ 0 ∷ r.keys, record k { pending_key_events = rest; state = key_down })
keyboard_poll key_down pending k = (replicate 6 0, record k { state = idle })

-- `handle_urb` of the keyboard.
unfoldable pub keyboard_urb : UsbEndpoint → SetupPacket → Keyboard → Outcome (List ℕ) × Keyboard
unfolding keyboard_control keyboard_poll
keyboard_urb ep setup k = if is_ep0 ep then (keyboard_control setup k, k) else elim (direction ep) [
  | in_dir ↦ (let (resp, k') = keyboard_poll k.state k.pending_key_events k in (ok resp, k'))
  | out_dir ↦ (ok [], k)
]

-- `get_class_specific_descriptor` of the keyboard.
unfoldable pub keyboard_class_descriptor : Keyboard → List ℕ
unfolding hid_descriptor_code
keyboard_class_descriptor k =
    0x09
    ∷ hid_descriptor_code hid
    ∷ 0x11
    ∷ 0x01
    ∷ 0x00
    ∷ 0x01
    ∷ hid_descriptor_code report
    ∷ (length k.report_descriptor % 2 ^ 8)
    ∷ (length k.report_descriptor / 2 ^ 8 % 2 ^ 8)
    ∷ []
