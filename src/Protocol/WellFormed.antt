-- ===== src/Protocol/WellFormed.antt =====
-- What src/usbip_protocol.rs takes for a proper command: each field fits its integer type, arrays
-- have their length, and the parts of variable length are as long as the fixed part announces.
use nusbip.Common.{
  ℕ, ◌*◌, ◌≤◌, Bool, false, ◌&&◌, not, ◌==◌, if◌then◌else◌, length, IsU32, ◌≡◌, ◌⊎◌,
}
use nusbip.Protocol.Header.{
  HeaderBasic, HeaderFits, usbip_cmd_submit, usbip_cmd_unlink, direction_in,
}
use nusbip.Protocol.Command.{Command, Submit, req_devlist, req_import, cmd_submit, cmd_unlink}

-- A condition that only a debug build tests.
abbrev pub InDebug : Bool → Type 0 → Type 0
InDebug debug P = (debug ≡ false) ⊎ P

-- How many bytes of data and of packet descriptors follow a submit.
unfoldable pub payload_length : HeaderBasic → Submit → ℕ
payload_length header s = if header.direction == direction_in then 0 else s.transfer_buffer_length

unfoldable pub iso_length : Submit → ℕ
iso_length s =
    if not (s.number_of_packets == 0) && not (s.number_of_packets == 0xffff_ffff)
    then 16 * s.number_of_packets
    else 0

pub record HeaderIsWellFormed (debug : Bool) (code : ℕ) (h : HeaderBasic) : Type 0 where
  pub code_fits : h.command ≡ code
  pub fields : HeaderFits h
  pub direction_valid : InDebug debug (h.direction ≤ 1)

pub record SubmitIsWellFormed (h : HeaderBasic) (s : Submit) : Type 0 where
  pub transfer_flags_fits : IsU32 s.transfer_flags
  pub transfer_buffer_length_fits : IsU32 s.transfer_buffer_length
  pub start_frame_fits : IsU32 s.start_frame
  pub number_of_packets_fits : IsU32 s.number_of_packets
  pub interval_fits : IsU32 s.interval
  pub setup_length : length s.setup ≡ 8
  pub payload_fits : length s.payload ≡ payload_length h s
  pub iso_fits : length s.iso_packet_descriptor ≡ iso_length s

abbrev pub IsWellFormed : Bool → Command → Type 0
IsWellFormed debug (req_devlist status) = IsU32 status × InDebug debug (status ≡ 0)
IsWellFormed debug (req_import status busid) =
    IsU32 status × InDebug debug (status ≡ 0) × (length busid ≡ 32)
IsWellFormed debug (cmd_submit h s) =
    HeaderIsWellFormed debug usbip_cmd_submit h × SubmitIsWellFormed h s
IsWellFormed debug (cmd_unlink h unlink_seqnum) =
    HeaderIsWellFormed debug usbip_cmd_unlink h × IsU32 unlink_seqnum
