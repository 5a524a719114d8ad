-- ===== src/Units/Commands.antt =====
-- The unit tests of src/usbip_protocol.rs that serialise a command.
use nusbip.Common.{[], ◌∷◌, Bool, true, bytes_eq, replicate, u16_be, u32_be, ◌≡◌, refl}
use nusbip.Protocol.Header.{header_to_bytes}
use nusbip.Protocol.Command.{
  req_devlist, req_import, cmd_submit, cmd_unlink, command_to_bytes, submit_fields,
}
use nusbip.Units.{writes}

abbrev byte_serialize_op_req_devlist : Bool
byte_serialize_op_req_devlist =
    writes (command_to_bytes true (req_devlist 0))
      (0x01 ∷ 0x11 ∷ 0x80 ∷ 0x05 ∷ 0x00 ∷ 0x00 ∷ 0x00 ∷ 0x00 ∷ [])

byte_serialize_op_req_devlist_lem : byte_serialize_op_req_devlist ≡ true
unfolding command_to_bytes bytes_eq u16_be u32_be
byte_serialize_op_req_devlist_lem = refl

abbrev byte_serialize_op_req_import : Bool
byte_serialize_op_req_import = writes (command_to_bytes true (req_import 0 (replicate 32 0))) (
    0x01 ∷ 0x11 ∷ 0x80 ∷ 0x03 ∷ 0x00 ∷ 0x00 ∷ 0x00 ∷ 0x00 ∷ 0x00 ∷ 0x00 ∷ 0x00 ∷ 0x00 ∷ 0x00 ∷ 0x00
    ∷ 0x00 ∷ 0x00 ∷ 0x00 ∷ 0x00 ∷ 0x00 ∷ 0x00 ∷ 0x00 ∷ 0x00 ∷ 0x00 ∷ 0x00 ∷ 0x00 ∷ 0x00 ∷ 0x00
    ∷ 0x00 ∷ 0x00 ∷ 0x00 ∷ 0x00 ∷ 0x00 ∷ 0x00 ∷ 0x00 ∷ 0x00 ∷ 0x00 ∷ 0x00 ∷ 0x00 ∷ 0x00 ∷ 0x00 ∷ [])

byte_serialize_op_req_import_lem : byte_serialize_op_req_import ≡ true
unfolding command_to_bytes bytes_eq u16_be u32_be
byte_serialize_op_req_import_lem = refl

abbrev byte_serialize_usbip_cmd_submit : Bool
byte_serialize_usbip_cmd_submit =
    writes
      (command_to_bytes true (
        cmd_submit (record { command = 1; seqnum = 2; devid = 3; direction = 4; ep = 5 })
          (record {
            transfer_flags = 0;
            transfer_buffer_length = 0;
            start_frame = 6;
            number_of_packets = 0;
            interval = 7;
            setup = replicate 8 0xFF;
            payload = [];
            iso_packet_descriptor = [];
          })))
      (0x00 ∷ 0x00 ∷ 0x00 ∷ 0x01 ∷ 0x00 ∷ 0x00 ∷ 0x00 ∷ 0x02 ∷ 0x00 ∷ 0x00 ∷ 0x00 ∷ 0x03 ∷ 0x00
        ∷ 0x00 ∷ 0x00 ∷ 0x04 ∷ 0x00 ∷ 0x00 ∷ 0x00 ∷ 0x05 ∷ 0x00 ∷ 0x00 ∷ 0x00 ∷ 0x00 ∷ 0x00 ∷ 0x00
        ∷ 0x00 ∷ 0x00 ∷ 0x00 ∷ 0x00 ∷ 0x00 ∷ 0x06 ∷ 0x00 ∷ 0x00 ∷ 0x00 ∷ 0x00 ∷ 0x00 ∷ 0x00 ∷ 0x00
        ∷ 0x07 ∷ 0xFF ∷ 0xFF ∷ 0xFF ∷ 0xFF ∷ 0xFF ∷ 0xFF ∷ 0xFF ∷ 0xFF ∷ [])

byte_serialize_usbip_cmd_submit_lem : byte_serialize_usbip_cmd_submit ≡ true
unfolding command_to_bytes bytes_eq header_to_bytes u32_be submit_fields
byte_serialize_usbip_cmd_submit_lem = refl

abbrev byte_serialize_usbip_cmd_unlink : Bool
byte_serialize_usbip_cmd_unlink =
    writes
      (command_to_bytes true
        (cmd_unlink (record { command = 0; seqnum = 1; devid = 2; direction = 3; ep = 4 }) 5))
      (0x00 ∷ 0x00 ∷ 0x00 ∷ 0x00 ∷ 0x00 ∷ 0x00 ∷ 0x00 ∷ 0x01 ∷ 0x00 ∷ 0x00 ∷ 0x00 ∷ 0x02 ∷ 0x00
        ∷ 0x00 ∷ 0x00 ∷ 0x03 ∷ 0x00 ∷ 0x00 ∷ 0x00 ∷ 0x04 ∷ 0x00 ∷ 0x00 ∷ 0x00 ∷ 0x05 ∷ 0x00 ∷ 0x00
        ∷ 0x00 ∷ 0x00 ∷ 0x00 ∷ 0x00 ∷ 0x00 ∷ 0x00 ∷ 0x00 ∷ 0x00 ∷ 0x00 ∷ 0x00 ∷ 0x00 ∷ 0x00 ∷ 0x00
        ∷ 0x00 ∷ 0x00 ∷ 0x00 ∷ 0x00 ∷ 0x00 ∷ 0x00 ∷ 0x00 ∷ 0x00 ∷ 0x00 ∷ [])

byte_serialize_usbip_cmd_unlink_lem : byte_serialize_usbip_cmd_unlink ≡ true
unfolding command_to_bytes bytes_eq header_to_bytes u32_be
byte_serialize_usbip_cmd_unlink_lem = refl
