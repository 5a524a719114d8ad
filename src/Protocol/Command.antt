-- ===== src/Protocol/Command.antt =====
-- `UsbIpCommand` and `UsbIpCommand::to_bytes`.
use nusbip.Common.{
  ℕ, ◌%◌, ◌^◌, List, ◌++◌, Bool, ◌||◌, not, ◌==◌, debug_assert, u16_be, u32_be, Outcome, ok, bind,
  length, replicate,
}
use nusbip.Protocol.Header.{
  HeaderBasic, header_to_bytes, usbip_version, op_req_devlist, op_req_import, direction_out,
}

-- The fields of a `UsbIpCmdSubmit` behind its header.
pub record Submit : Type 0 where
  pub transfer_flags : ℕ
  pub transfer_buffer_length : ℕ
  pub start_frame : ℕ
  pub number_of_packets : ℕ
  pub interval : ℕ
  pub setup : List ℕ
  pub payload : List ℕ
  pub iso_packet_descriptor : List ℕ

pub data Command : Type 0 where
  req_devlist : ℕ → Command
  req_import : ℕ → List ℕ → Command
  cmd_submit : HeaderBasic → Submit → Command
  cmd_unlink : HeaderBasic → ℕ → Command

-- The bytes of a submit between its header and its data.
unfoldable pub submit_fields : Submit → List ℕ
submit_fields s =
    u32_be s.transfer_flags
    ++ (u32_be s.transfer_buffer_length
        ++ (u32_be s.start_frame ++ (u32_be s.number_of_packets ++ (u32_be s.interval ++ s.setup))))

-- In a debug build, a host-to-device submit has as much data as it announces.
unfoldable pub command_to_bytes : Bool → Command → Outcome (List ℕ)
command_to_bytes debug (req_devlist status) =
    ok (u16_be usbip_version ++ (u16_be op_req_devlist ++ u32_be status))
command_to_bytes debug (req_import status busid) =
    ok (u16_be usbip_version ++ (u16_be op_req_import ++ (u32_be status ++ busid)))
command_to_bytes debug (cmd_submit header s) =
    bind
      (debug_assert debug (
        not (header.direction == direction_out)
        || s.transfer_buffer_length == length s.payload % 2 ^ 32))
      λ _.
        ok (header_to_bytes header ++ (submit_fields s ++ (s.payload ++ s.iso_packet_descriptor)))
command_to_bytes debug (cmd_unlink header unlink_seqnum) =
    ok (header_to_bytes header ++ (u32_be unlink_seqnum ++ replicate 24 0))
