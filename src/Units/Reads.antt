-- ===== src/Units/Reads.antt =====
-- The unit tests of src/usbip_protocol.rs that read a command.
use nusbip.Common.{
  [], ◌∷◌, Bool, true, bytes_eq, unknown_version, unknown_command, replicate, resize, u16_be,
  u32_be, ◌≡◌, refl,
}
use nusbip.Protocol.Header.{
  usbip_cmd_submit, usbip_cmd_unlink, direction_in, direction_out, read_from_socket_with_command,
  header_to_bytes,
}
use nusbip.Protocol.Command.{
  req_devlist, req_import, cmd_submit, cmd_unlink, command_to_bytes, submit_fields,
}
use nusbip.Protocol.Read.{
  read_from_socket, read_body, read_devlist, read_import, read_submit, read_unlink, read_data,
  read_iso, check_version,
}
use nusbip.Protocol.Input.{read_u16, read_u32, read_exact}
use nusbip.Units.{reads_back, fails_with, with_byte}

abbrev read_op_req_devlist_from_socket : Bool
read_op_req_devlist_from_socket = reads_back (req_devlist 0)

read_op_req_devlist_from_socket_lem : read_op_req_devlist_from_socket ≡ true
unfolding command_to_bytes read_from_socket read_u16 u16_be check_version read_body read_devlist
    read_u32 u32_be bytes_eq
read_op_req_devlist_from_socket_lem = refl

abbrev read_op_req_import_from_socket : Bool
read_op_req_import_from_socket =
    reads_back (req_import 0 (resize 32 0 (b'0' ∷ b'-' ∷ b'0' ∷ b'-' ∷ b'0' ∷ [])))

read_op_req_import_from_socket_lem : read_op_req_import_from_socket ≡ true
unfolding command_to_bytes read_from_socket read_u16 u16_be check_version read_body read_import
    read_u32 u32_be read_exact resize bytes_eq
read_op_req_import_from_socket_lem = refl

abbrev read_usbip_cmd_submit_from_socket : Bool
read_usbip_cmd_submit_from_socket = reads_back (
    cmd_submit
      (record {
        command = usbip_cmd_submit;
        seqnum = 1;
        devid = 2;
        direction = direction_out;
        ep = 4;
      })
      (record {
        transfer_flags = 5;
        transfer_buffer_length = 4;
        start_frame = 7;
        number_of_packets = 1;
        interval = 9;
        setup = 0x00 ∷ 0x01 ∷ 0x02 ∷ 0x03 ∷ 0x04 ∷ 0x05 ∷ 0x06 ∷ 0x07 ∷ [];
        payload = 0x08 ∷ 0x09 ∷ 0x0A ∷ 0x0B ∷ [];
        iso_packet_descriptor = replicate 16 0xFF;
      }))

read_usbip_cmd_submit_from_socket_lem : read_usbip_cmd_submit_from_socket ≡ true
unfolding command_to_bytes read_from_socket read_u16 header_to_bytes u32_be check_version read_body
    read_submit read_from_socket_with_command read_u32 submit_fields read_exact read_data read_iso
    bytes_eq
read_usbip_cmd_submit_from_socket_lem = refl

abbrev read_usbip_cmd_submit_from_socket_with_no_data : Bool
read_usbip_cmd_submit_from_socket_with_no_data = reads_back (
    cmd_submit
      (record {
        command = usbip_cmd_submit;
        seqnum = 1;
        devid = 2;
        direction = direction_in;
        ep = 4;
      })
      (record {
        transfer_flags = 5;
        transfer_buffer_length = 64;
        start_frame = 7;
        number_of_packets = 1;
        interval = 9;
        setup = 0x00 ∷ 0x01 ∷ 0x02 ∷ 0x03 ∷ 0x04 ∷ 0x05 ∷ 0x06 ∷ 0xFF ∷ [];
        payload = [];
        iso_packet_descriptor = replicate 16 0xFF;
      }))

read_usbip_cmd_submit_from_socket_with_no_data_lem :
    read_usbip_cmd_submit_from_socket_with_no_data ≡ true
unfolding command_to_bytes read_from_socket read_u16 header_to_bytes u32_be check_version read_body
    read_submit read_from_socket_with_command read_u32 submit_fields read_exact read_data read_iso
    bytes_eq
read_usbip_cmd_submit_from_socket_with_no_data_lem = refl

abbrev read_usbip_cmd_unlink_from_socket : Bool
read_usbip_cmd_unlink_from_socket = reads_back (
    cmd_unlink (record { command = usbip_cmd_unlink; seqnum = 1; devid = 2; direction = 0; ep = 4 })
      1)

read_usbip_cmd_unlink_from_socket_lem : read_usbip_cmd_unlink_from_socket ≡ true
unfolding command_to_bytes read_from_socket read_u16 header_to_bytes u32_be check_version read_body
    read_unlink read_from_socket_with_command read_u32 read_exact bytes_eq
read_usbip_cmd_unlink_from_socket_lem = refl

abbrev byte_serialization_fails_on_old_usbip_version : Bool
byte_serialization_fails_on_old_usbip_version =
    fails_with (unknown_version 0x110) (with_byte 1 0x10 (command_to_bytes true (req_devlist 0)))

byte_serialization_fails_on_old_usbip_version_lem :
    byte_serialization_fails_on_old_usbip_version ≡ true
unfolding command_to_bytes read_from_socket read_u16 u16_be check_version
byte_serialization_fails_on_old_usbip_version_lem = refl

abbrev byte_serialization_fails_on_invalid_command : Bool
byte_serialization_fails_on_invalid_command =
    fails_with (unknown_command 0x1005) (with_byte 2 0x10 (command_to_bytes true (req_devlist 0)))

byte_serialization_fails_on_invalid_command_lem : byte_serialization_fails_on_invalid_command ≡ true
unfolding command_to_bytes read_from_socket read_u16 u16_be check_version read_body
byte_serialization_fails_on_invalid_command_lem = refl
