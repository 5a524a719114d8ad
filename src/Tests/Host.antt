-- ===== src/Tests/Host.antt =====
-- A host with one device, on which every call fails but the finding and opening of that device.
use nusbip.Common.{[], ◌∷◌, none, some, Bool, true, false, Outcome, ok, panic, ◌≡◌, refl}
use nusbip.Setup.{SetupPacket}
use nusbip.Endpoint.{UsbEndpoint}
use nusbip.Server.{Server}
use nusbip.Host.Info.{DeviceInfo, high}
use nusbip.Host.Effects.{Nusb, failed, list_devices}
use nusbip.Host.Bus.{Bus, got}
use nusbip.Host.Handlers.{DeviceHandler, call_method, call_methods, handles_urb, resets}
use nusbip.Host.Handlers.Laws.{reserved_disables}
use nusbip.Host.Handlers.Reset.{ResetEnds, reset-ResetEnds}
use nusbip.Export.{filtered, new_from_host_with_filter}
use nusbip.Export.Claims.{ClaimsSucceed}
use nusbip.Export.Faithful.{Exports, new_from_host_lem}

abbrev pub nusb : Nusb
nusb = record {
  answer = λ calls call. failed 19;
  max_packet_size = λ i address. 512;
  interface_number = λ handle. 0;
}

abbrev info : DeviceInfo
info = record {
  sysfs_path = b'/' ∷ b's' ∷ b'/' ∷ b'1' ∷ b'-' ∷ b'2' ∷ [];
  busnum = 1;
  device_address = 2;
  speed = some high;
  vendor_id = 7;
  product_id = 8;
  class = 0;
  subclass = 0;
  protocol = 0;
  device_version = 256;
  usb_version = 512;
  manufacturer_string = none;
  product_string = some (b'p' ∷ []);
  serial_number = none;
  interface_classes = 8 ∷ [];
}

abbrev pub bus : Bus
bus = record {
  listed = λ calls. got (info ∷ []);
  opened = λ calls i. got 5;
  configured = λ calls dev. got (record {
    configuration_value = 1;
    attributes = 0x80;
    max_power = 50;
    interface_numbers = 0 ∷ [];
  });
  claimed = λ calls dev n. got 6;
  interface_descriptor = λ handle.
      some (record { class = 8; subclass = 6; protocol = 80; string_index = none; endpoints = [] });
  vendor_of = λ handle. 7;
  configurations = λ handle. 1;
}

abbrev device_handler : DeviceHandler
device_handler = record { handle = 5; poisoned = false }

-- A request of the reserved type.
abbrev reserved : SetupPacket
reserved = record { request_type = 0x60; request = 0; value = 0; index = 0; length = 0 }

abbrev interrupt_in : UsbEndpoint
interrupt_in = record { address = 0x81; attributes = 3; max_packet_size = 8; interval = 10 }

reserved_disables_example :
    call_methods nusb bus false (handles_urb reserved [] ∷ resets ∷ []) device_handler []
    ≡ ((panic ∷ panic ∷ [], record device_handler { poisoned = true }), [])
reserved_disables_example =
    reserved_disables nusb bus false reserved [] (resets ∷ []) device_handler [] refl

reset_example : ResetEnds bus 5 (call_method nusb bus false resets device_handler []).0
reset_example = reset-ResetEnds nusb bus false device_handler []

pub claims : ClaimsSucceed bus
claims = λ calls dev n. (6, _, refl, refl)

abbrev any_device : DeviceInfo → Bool
any_device i = true

new_from_host_example :
    (server : Server) × ((new_from_host_with_filter nusb bus true any_device []).0 ≡ ok server)
    × (server.used ≡ [])
    × Exports bus
        (list_devices ∷ [])
        (info ∷ [])
        server.available
        (new_from_host_with_filter nusb bus true any_device []).1
unfolding filtered
new_from_host_example = new_from_host_lem nusb bus true any_device [] claims

abbrev pub made_server : Outcome Server → Server
made_server (ok s) = s
made_server _ = record { available = []; used = [] }
