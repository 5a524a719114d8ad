-- ===== src/Units/Replies.antt =====
-- The unit tests of src/usbip_protocol.rs that serialise a reply.
use nusbip.Common.{
  [], ◌∷◌, Bool, true, false, ◌&&◌, bytes_eq, replicate, resize, u16_be, u32_be, ◌≡◌, refl,
}
use nusbip.Protocol.Header.{
  usbip_ret_submit, usbip_ret_unlink, direction_in, direction_out, header_to_bytes,
}
use nusbip.Response.{
  ret_submit, response_to_bytes, op_rep_devlist_response, op_rep_import_success, op_rep_import_fail,
  usbip_ret_unlink_success, usbip_ret_unlink_fail, devices_to_bytes, imported_to_bytes,
  ret_submit_fields,
}
use nusbip.Device.Names.{default_device}
use nusbip.Device.Bytes.{device_to_bytes, to_bytes_with_interfaces}
use nusbip.Units.{writes, writes_device, panics}
use nusbip.Device.Bytes.{device_numbers}
use nusbip.Device.Bytes.{interface_bytes}

abbrev byte_serialize_op_rep_devlist : Bool
byte_serialize_op_rep_devlist =
    writes_device default_device
      (0x01 ∷ 0x11 ∷ 0x00 ∷ 0x05 ∷ 0x00 ∷ 0x00 ∷ 0x00 ∷ 0x00 ∷ 0x00 ∷ 0x00 ∷ 0x00 ∷ 0x01 ∷ [])
      (response_to_bytes true (op_rep_devlist_response (default_device ∷ [])))

byte_serialize_op_rep_devlist_lem : byte_serialize_op_rep_devlist ≡ true
unfolding response_to_bytes device_to_bytes default_device op_rep_devlist_response devices_to_bytes
    to_bytes_with_interfaces bytes_eq u16_be u32_be resize device_numbers interface_bytes
byte_serialize_op_rep_devlist_lem = refl

abbrev byte_serialize_op_rep_import : Bool
byte_serialize_op_rep_import =
    writes_device default_device (0x01 ∷ 0x11 ∷ 0x00 ∷ 0x03 ∷ 0x00 ∷ 0x00 ∷ 0x00 ∷ 0x00 ∷ [])
      (response_to_bytes true (op_rep_import_success default_device))
    && writes (response_to_bytes true op_rep_import_fail)
        (0x01 ∷ 0x11 ∷ 0x00 ∷ 0x03 ∷ 0x00 ∷ 0x00 ∷ 0x00 ∷ 0x01 ∷ [])

byte_serialize_op_rep_import_lem : byte_serialize_op_rep_import ≡ true
unfolding response_to_bytes device_to_bytes default_device op_rep_import_success imported_to_bytes
    bytes_eq u16_be u32_be resize op_rep_import_fail device_numbers
byte_serialize_op_rep_import_lem = refl

abbrev byte_serialize_usbip_ret_submit : Bool
byte_serialize_usbip_ret_submit =
    writes
      (response_to_bytes true (
        ret_submit
          (record {
            command = usbip_ret_submit;
            seqnum = 2;
            devid = 3;
            direction = direction_in;
            ep = 4;
          })
          (record {
            status = 5;
            actual_length = 4;
            start_frame = 7;
            number_of_packets = 8;
            error_count = 9;
            transfer_buffer = replicate 4 0xFF;
            iso_packet_descriptor = [];
          })))
      (0x00 ∷ 0x00 ∷ 0x00 ∷ 0x03 ∷ 0x00 ∷ 0x00 ∷ 0x00 ∷ 0x02 ∷ 0x00 ∷ 0x00 ∷ 0x00 ∷ 0x03 ∷ 0x00
        ∷ 0x00 ∷ 0x00 ∷ 0x01 ∷ 0x00 ∷ 0x00 ∷ 0x00 ∷ 0x04 ∷ 0x00 ∷ 0x00 ∷ 0x00 ∷ 0x05 ∷ 0x00 ∷ 0x00
        ∷ 0x00 ∷ 0x04 ∷ 0x00 ∷ 0x00 ∷ 0x00 ∷ 0x07 ∷ 0x00 ∷ 0x00 ∷ 0x00 ∷ 0x08 ∷ 0x00 ∷ 0x00 ∷ 0x00
        ∷ 0x09 ∷ 0x00 ∷ 0x00 ∷ 0x00 ∷ 0x00 ∷ 0x00 ∷ 0x00 ∷ 0x00 ∷ 0x00 ∷ 0xFF ∷ 0xFF ∷ 0xFF ∷ 0xFF
        ∷ [])

byte_serialize_usbip_ret_submit_lem : byte_serialize_usbip_ret_submit ≡ true
unfolding response_to_bytes bytes_eq header_to_bytes u32_be ret_submit_fields
byte_serialize_usbip_ret_submit_lem = refl

abbrev byte_serialize_invalid_usbip_ret_submit : Bool
byte_serialize_invalid_usbip_ret_submit = panics (
    response_to_bytes true (
      ret_submit
        (record {
          command = usbip_ret_submit;
          seqnum = 2;
          devid = 3;
          direction = direction_out;
          ep = 4;
        })
        (record {
          status = 5;
          actual_length = 4;
          start_frame = 7;
          number_of_packets = 8;
          error_count = 9;
          transfer_buffer = replicate 4 0xFF;
          iso_packet_descriptor = replicate 16 0xFF;
        })))

byte_serialize_invalid_usbip_ret_submit_lem : byte_serialize_invalid_usbip_ret_submit ≡ false
unfolding response_to_bytes
byte_serialize_invalid_usbip_ret_submit_lem = refl

abbrev byte_serialize_usbip_ret_unlink : Bool
byte_serialize_usbip_ret_unlink =
    writes
      (response_to_bytes true (
        usbip_ret_unlink_success
          (record { command = usbip_ret_unlink; seqnum = 1; devid = 2; direction = 3; ep = 4 })))
      (0x00 ∷ 0x00 ∷ 0x00 ∷ 0x04 ∷ 0x00 ∷ 0x00 ∷ 0x00 ∷ 0x01 ∷ 0x00 ∷ 0x00 ∷ 0x00 ∷ 0x02 ∷ 0x00
        ∷ 0x00 ∷ 0x00 ∷ 0x03 ∷ 0x00 ∷ 0x00 ∷ 0x00 ∷ 0x04 ∷ 0x00 ∷ 0x00 ∷ 0x00 ∷ 0x00 ∷ 0x00 ∷ 0x00
        ∷ 0x00 ∷ 0x00 ∷ 0x00 ∷ 0x00 ∷ 0x00 ∷ 0x00 ∷ 0x00 ∷ 0x00 ∷ 0x00 ∷ 0x00 ∷ 0x00 ∷ 0x00 ∷ 0x00
        ∷ 0x00 ∷ 0x00 ∷ 0x00 ∷ 0x00 ∷ 0x00 ∷ 0x00 ∷ 0x00 ∷ 0x00 ∷ 0x00 ∷ [])
    && writes
        (response_to_bytes true (
          usbip_ret_unlink_fail
            (record { command = usbip_ret_unlink; seqnum = 1; devid = 2; direction = 3; ep = 4 })))
        (0x00 ∷ 0x00 ∷ 0x00 ∷ 0x04 ∷ 0x00 ∷ 0x00 ∷ 0x00 ∷ 0x01 ∷ 0x00 ∷ 0x00 ∷ 0x00 ∷ 0x02 ∷ 0x00
          ∷ 0x00 ∷ 0x00 ∷ 0x03 ∷ 0x00 ∷ 0x00 ∷ 0x00 ∷ 0x04 ∷ 0x00 ∷ 0x00 ∷ 0x00 ∷ 0x01 ∷ 0x00 ∷ 0x00
          ∷ 0x00 ∷ 0x00 ∷ 0x00 ∷ 0x00 ∷ 0x00 ∷ 0x00 ∷ 0x00 ∷ 0x00 ∷ 0x00 ∷ 0x00 ∷ 0x00 ∷ 0x00 ∷ 0x00
          ∷ 0x00 ∷ 0x00 ∷ 0x00 ∷ 0x00 ∷ 0x00 ∷ 0x00 ∷ 0x00 ∷ 0x00 ∷ 0x00 ∷ [])

byte_serialize_usbip_ret_unlink_lem : byte_serialize_usbip_ret_unlink ≡ true
unfolding response_to_bytes usbip_ret_unlink_success bytes_eq header_to_bytes u32_be
    usbip_ret_unlink_fail
byte_serialize_usbip_ret_unlink_lem = refl
