-- ===== src/Protocol/Read.antt =====
-- `UsbIpCommand::read_from_socket`. A `usize` has 64 bits, so `16 * number_of_packets` does not wrap.
use nusbip.Common.{
  ℕ, ◌*◌, List, [], Bool, ◌&&◌, not, ◌==◌, debug_assert, if◌then◌else◌, err, unknown_version,
  unknown_command,
}
use nusbip.Protocol.Input.{Reader, ◌>>=◌, ◌>>◌, pure, lift, read_u16, read_u32, read_exact}
use nusbip.Protocol.Header.{
  HeaderBasic, read_from_socket_with_command, usbip_version, op_req_devlist, op_req_import,
  usbip_cmd_submit, usbip_cmd_unlink, direction_in,
}
use nusbip.Protocol.Command.{Command, req_devlist, req_import, cmd_submit, cmd_unlink}

unfoldable pub read_devlist : Bool → Reader Command
read_devlist debug = do
  status ← read_u32
  lift (debug_assert debug (status == 0))
  pure (req_devlist status)

unfoldable pub read_import : Bool → Reader Command
read_import debug = do
  status ← read_u32
  lift (debug_assert debug (status == 0))
  busid ← read_exact 32
  pure (req_import status busid)

-- No data follows a submit whose direction is `In`.
unfoldable pub read_data : HeaderBasic → ℕ → Reader (List ℕ)
read_data header transfer_buffer_length =
    if header.direction == direction_in then pure [] else read_exact transfer_buffer_length

unfoldable pub read_iso : ℕ → Reader (List ℕ)
read_iso number_of_packets =
    if not (number_of_packets == 0) && not (number_of_packets == 0xffff_ffff)
    then read_exact (16 * number_of_packets)
    else pure []

unfoldable pub read_submit : Bool → Reader Command
read_submit debug = do
  header ← read_from_socket_with_command debug usbip_cmd_submit
  transfer_flags ← read_u32
  transfer_buffer_length ← read_u32
  start_frame ← read_u32
  number_of_packets ← read_u32
  interval ← read_u32
  setup ← read_exact 8
  payload ← read_data header transfer_buffer_length
  iso_packet_descriptor ← read_iso number_of_packets
  pure (
      cmd_submit header (record {
        transfer_flags = transfer_flags;
        transfer_buffer_length = transfer_buffer_length;
        start_frame = start_frame;
        number_of_packets = number_of_packets;
        interval = interval;
        setup = setup;
        payload = payload;
        iso_packet_descriptor = iso_packet_descriptor;
      }))

unfoldable pub read_unlink : Bool → Reader Command
read_unlink debug = do
  header ← read_from_socket_with_command debug usbip_cmd_unlink
  unlink_seqnum ← read_u32
  padding ← read_exact 24
  pure (cmd_unlink header unlink_seqnum)

-- What follows the version and the command code.
unfoldable pub read_body : Bool → ℕ → Reader Command
read_body debug command =
    if command == op_req_devlist
    then read_devlist debug
    else if command == op_req_import
    then read_import debug
    else if command == usbip_cmd_submit
    then read_submit debug
    else if command == usbip_cmd_unlink
    then read_unlink debug
    else lift (err (unknown_command command))

unfoldable pub check_version : ℕ → Reader (Unit {0})
check_version version =
    if not (version == 0) && not (version == usbip_version)
    then lift (err (unknown_version version))
    else pure tt

unfoldable pub read_from_socket : Bool → Reader Command
read_from_socket debug = do
  version ← read_u16
  check_version version
  command ← read_u16
  read_body debug command
