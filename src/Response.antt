-- ===== src/Response.antt =====
-- `UsbIpResponse` of src/usbip_protocol.rs: the server's replies, their constructors and their bytes.
pub mod Layout
use nusbip.Common.{
  ℕ, ◌%◌, ◌^◌, List, [], ◌∷◌, ◌++◌, Option, none, some, Bool, ◌==◌, debug_assert, Outcome, ok, bind,
  length, replicate, u16_be, u32_be,
}
use nusbip.Protocol.Header.{
  HeaderBasic, header_to_bytes, usbip_version, op_rep_devlist, op_rep_import, usbip_ret_submit,
  usbip_ret_unlink,
}
use nusbip.Device.{UsbDevice}
use nusbip.Device.Bytes.{device_to_bytes, to_bytes_with_interfaces}

-- The fields of a `UsbIpRetSubmit` behind its header.
pub record RetSubmit : Type 0 where
  pub status : ℕ
  pub actual_length : ℕ
  pub start_frame : ℕ
  pub number_of_packets : ℕ
  pub error_count : ℕ
  pub transfer_buffer : List ℕ
  pub iso_packet_descriptor : List ℕ

pub data Response : Type 0 where
  rep_devlist : (status device_count : ℕ) → List UsbDevice → Response
  rep_import : (status : ℕ) → Option UsbDevice → Response
  ret_submit : HeaderBasic → RetSubmit → Response
  ret_unlink : HeaderBasic → (status : ℕ) → Response

unfoldable pub devices_to_bytes : Bool → List UsbDevice → Outcome (List ℕ)
devices_to_bytes debug [] = ok []
devices_to_bytes debug (d ∷ ds) =
    bind (to_bytes_with_interfaces debug d)
      λ bytes. bind (devices_to_bytes debug ds) λ more. ok (bytes ++ more)

unfoldable pub imported_to_bytes : Bool → Option UsbDevice → Outcome (List ℕ)
imported_to_bytes debug none = ok []
imported_to_bytes debug (some d) = device_to_bytes debug d

-- The bytes of a reply to a submit between its header and its transfer buffer.
unfoldable pub ret_submit_fields : RetSubmit → List ℕ
ret_submit_fields r =
    u32_be r.status
    ++ (u32_be r.actual_length
        ++ (u32_be r.start_frame
            ++ (u32_be r.number_of_packets ++ (u32_be r.error_count ++ replicate 8 0))))

-- `UsbIpResponse::to_bytes`.
unfoldable pub response_to_bytes : Bool → Response → Outcome (List ℕ)
response_to_bytes debug (rep_devlist status device_count devices) =
    bind (devices_to_bytes debug devices) λ bytes. ok (
      u16_be usbip_version
      ++ (u16_be op_rep_devlist ++ (u32_be status ++ (u32_be device_count ++ bytes))))
response_to_bytes debug (rep_import status device) =
    bind (imported_to_bytes debug device)
      λ bytes. ok (u16_be usbip_version ++ (u16_be op_rep_import ++ (u32_be status ++ bytes)))
response_to_bytes debug (ret_submit header r) =
    bind (debug_assert debug (header.command == usbip_ret_submit)) λ _. ok (
      header_to_bytes header
      ++ (ret_submit_fields r ++ (r.transfer_buffer ++ r.iso_packet_descriptor)))
response_to_bytes debug (ret_unlink header status) =
    bind (debug_assert debug (header.command == usbip_ret_unlink))
      λ _. ok (header_to_bytes header ++ (u32_be status ++ replicate 24 0))

unfoldable pub op_rep_devlist_response : List UsbDevice → Response
op_rep_devlist_response devices = rep_devlist 0 (length devices % 2 ^ 32) devices

unfoldable pub op_rep_import_success : UsbDevice → Response
op_rep_import_success device = rep_import 0 (some device)

unfoldable pub op_rep_import_fail : Response
op_rep_import_fail = rep_import 1 none

unfoldable pub usbip_ret_submit_success :
    HeaderBasic
    → (start_frame actual_length : ℕ) → (transfer_buffer iso_packet_descriptor : List ℕ) → Response
usbip_ret_submit_success header start_frame actual_length transfer_buffer iso =
    ret_submit header (record {
      status = 0;
      actual_length = actual_length;
      start_frame = start_frame;
      number_of_packets = 0;
      error_count = 0;
      transfer_buffer = transfer_buffer;
      iso_packet_descriptor = iso;
    })

unfoldable pub usbip_ret_submit_fail : HeaderBasic → ℕ → Response
usbip_ret_submit_fail header actual_length = ret_submit header (record {
  status = 1;
  actual_length = actual_length;
  start_frame = 0;
  number_of_packets = 0;
  error_count = 0;
  transfer_buffer = [];
  iso_packet_descriptor = [];
})

unfoldable pub usbip_ret_unlink_success : HeaderBasic → Response
usbip_ret_unlink_success header = ret_unlink header 0

unfoldable pub usbip_ret_unlink_fail : HeaderBasic → Response
usbip_ret_unlink_fail header = ret_unlink header 1
