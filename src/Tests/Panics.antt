-- ===== src/Tests/Panics.antt =====
-- A connection of src/lib.rs that sends a request to an interface which its device does not have.
use nusbip.Common.{ℕ, List, [], ◌∷◌, ◌++◌, none, some, true, ok, panic, inr, ◌≡◌, refl, arith}
use nusbip.Consts.{attributes_from, attributes_code}
use nusbip.Setup.{parse, word_le}
use nusbip.Device.{UsbDevice, find_ep}
use nusbip.Device.Names.{default_device, ep0}
use nusbip.Protocol.Header.{HeaderBasic}
use nusbip.Protocol.Command.{Submit, cmd_submit, command_to_bytes}
use nusbip.Protocol.WellFormed.{IsWellFormed, payload_length, iso_length}
use nusbip.Server.Submit.{real_ep}
use nusbip.Handler.{Connection, handler, connection_task}
use nusbip.Handler.Input.{with_input}
use nusbip.Handler.Panics.{missing_interface_lem}
use nusbip.Tests.Data.{device_named}
use nusbip.Tests.Host.{nusb}

abbrev disk : UsbDevice
disk = record (device_named (49 ∷ [])) {
  ep0_in = record { address = 0x80; attributes = 0; max_packet_size = 64; interval = 0 };
}

abbrev connection : Connection
connection = record {
  server = record { available = []; used = disk ∷ [] };
  imported = some disk;
  input = [];
  output = [];
  accepts = 3;
  calls = [];
}

abbrev header : HeaderBasic
header = record { command = 1; seqnum = 7; devid = 2; direction = 1; ep = 0 }

-- A standard request to interface 5.
abbrev to_interface_5 : Submit
to_interface_5 = record {
  transfer_flags = 0;
  transfer_buffer_length = 0;
  start_frame = 0;
  number_of_packets = 0;
  interval = 0;
  setup = 0x81 ∷ 0 ∷ 0 ∷ 0 ∷ 5 ∷ 0 ∷ 0 ∷ 0 ∷ [];
  payload = [];
  iso_packet_descriptor = [];
}

to_interface_5-IsWellFormed : IsWellFormed true (cmd_submit header to_interface_5)
unfolding payload_length iso_length
to_interface_5-IsWellFormed = (
  record {
    code_fits = refl;
    fields = record {
      command_fits = omega arith;
      seqnum_fits = omega arith;
      devid_fits = omega arith;
      direction_fits = omega arith;
      ep_fits = omega arith;
    };
    direction_valid = inr (omega arith);
  },
  record {
    transfer_flags_fits = omega arith;
    transfer_buffer_length_fits = omega arith;
    start_frame_fits = omega arith;
    number_of_packets_fits = omega arith;
    interval_fits = omega arith;
    setup_length = refl;
    payload_fits = refl;
    iso_fits = refl;
  },
)

missing_interface_example :
    (bytes : List ℕ) × (command_to_bytes true (cmd_submit header to_interface_5) ≡ ok bytes)
    × ((handler nusb true (with_input (bytes ++ []) connection)).0 ≡ panic)
    × ((connection_task nusb true (with_input (bytes ++ []) connection)).server ≡ connection.server)
unfolding find_ep real_ep attributes_from attributes_code parse word_le default_device ep0
missing_interface_example =
    missing_interface_lem nusb true header to_interface_5 [] connection disk disk.ep0_in none
      to_interface_5-IsWellFormed refl refl refl refl refl
