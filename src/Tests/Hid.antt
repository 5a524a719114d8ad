-- ===== src/Tests/Hid.antt =====
-- The keyboard of src/hid.rs and the serial port of src/cdc.rs.
use nusbip.Common.{
  ℕ, List, [], ◌∷◌, ◌++◌, length, replicate, get_or, ok, ◌≡◌, ◌+◌, ◌*◌, refl, arith,
}
use nusbip.Endpoint.{UsbEndpoint, is_ep0, direction}
use nusbip.Setup.{SetupPacket}
use nusbip.Verify.{verify_descriptor}
use nusbip.Hid.{
  KeyboardReport, Keyboard, idle, key_down, from_ascii, keyboard_urb, keyboard_class_descriptor,
  keyboard_report_descriptor,
}
use nusbip.Hid.Keys.{Types, from_ascii-Types}
use nusbip.Hid.Delivery.{types, asks, packets, run_keyboard, strokes, run_keyboard_lem, polls_lem}
use nusbip.Hid.Layout.{keyboard_descriptors}
use nusbip.Cdc.{CdcAcm}
use nusbip.Cdc.Stream
use nusbip.Cdc.Stream.{writes, run_serial, written, run_serial_lem}
use nusbip.Tests.Data.{bulk_in_endpoint}

-- The key of `a`.
abbrev key_a : KeyboardReport
key_a = record { modifier = 0; keys = 4 ∷ replicate 5 0 }

abbrev interrupt_in : UsbEndpoint
interrupt_in = record { address = 0x81; attributes = 3; max_packet_size = 8; interval = 10 }

abbrev endpoint_0 : UsbEndpoint
endpoint_0 = record { address = 0x80; attributes = 0; max_packet_size = 64; interval = 0 }

-- GET_DESCRIPTOR for the report descriptor.
abbrev get_report : SetupPacket
get_report = record { request_type = 0x81; request = 6; value = 0x2200; index = 0; length = 63 }

-- A keyboard with one key down and one that is pending.
abbrev keyboard : Keyboard
keyboard = record {
  report_descriptor = keyboard_report_descriptor;
  pending_key_events = key_a ∷ [];
  state = key_down;
}

run_keyboard_example :
    (run_keyboard (types key_a ∷ asks interrupt_in get_report ∷ []) keyboard).0
      ++ packets (run_keyboard (types key_a ∷ asks interrupt_in get_report ∷ []) keyboard).1
    ≡ packets keyboard ++ strokes (key_a ∷ [])
run_keyboard_example = run_keyboard_lem (types key_a ∷ asks interrupt_in get_report ∷ []) keyboard

polls_example :
    run_keyboard (replicate 4 (asks interrupt_in get_report)) keyboard
    ≡ (packets keyboard, record keyboard { state = idle; pending_key_events = [] })
unfolding is_ep0 direction
polls_example = polls_lem interrupt_in get_report 4 keyboard refl refl (omega arith)

from_ascii_example : Types b'q' (from_ascii b'q')
from_ascii_example = from_ascii-Types b'q'

keyboard_descriptors_example :
    (bytes : List ℕ) × (keyboard_urb endpoint_0 get_report keyboard ≡ (ok bytes, keyboard))
    × (length bytes
        ≡ get_or (keyboard_class_descriptor keyboard) 7 0
          + 256 * get_or (keyboard_class_descriptor keyboard) 8 0)
    × (verify_descriptor (keyboard_class_descriptor keyboard) ≡ ok tt)
unfolding is_ep0
keyboard_descriptors_example =
    keyboard_descriptors endpoint_0 get_report keyboard refl refl refl refl (omega arith)

abbrev serial_port : CdcAcm
serial_port = record { tx_buffer = b'x' ∷ [] }

run_serial_example :
    (bytes : List ℕ) × ((run_serial
        (writes (b'y' ∷ []) ∷ Stream.asks bulk_in_endpoint [] ∷ [])
        serial_port).0
      ≡ ok bytes)
    × (bytes
          ++ (run_serial
              (writes (b'y' ∷ []) ∷ Stream.asks bulk_in_endpoint [] ∷ [])
              serial_port).1.tx_buffer
        ≡ b'x' ∷ b'y' ∷ [])
run_serial_example =
    run_serial_lem (writes (b'y' ∷ []) ∷ Stream.asks bulk_in_endpoint [] ∷ []) serial_port
