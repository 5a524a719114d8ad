-- ===== src/Tests/Protocol.antt =====
-- The parser and the serialisers of src/usbip_protocol.rs at concrete bytes.
use nusbip.Common.{
  ℕ, List, [], ◌∷◌, ◌++◌, Bool, true, length, ok, err, ◌≡◌, refl, inr, arith, u16_be, u32_be,
  unexpected_eof,
}
use nusbip.Protocol.Command.{Command, req_devlist, cmd_submit, command_to_bytes}
use nusbip.Protocol.Input.{read_u16, read_u32}
use nusbip.Protocol.Read.{read_from_socket, read_body, read_devlist, check_version}
use nusbip.Protocol.WellFormed.{IsWellFormed, payload_length, iso_length}
use nusbip.Protocol.RoundTrip.{read-to_bytes}
use nusbip.Protocol.Sound.{read-IsWellFormed}
use nusbip.Protocol.Prefix.{read_truncated}
use nusbip.Response.{Response, ret_submit, response_to_bytes}
use nusbip.Response.Layout.{length-response, wire_length}
use nusbip.Tests.Data.{submit_header, two_bytes_out}

abbrev submit : Command
submit = cmd_submit submit_header two_bytes_out

submit_proper : (debug : Bool) → IsWellFormed debug submit
unfolding payload_length iso_length
submit_proper debug = (
  record {
    code_fits = refl;
    fields = record {
      command_fits = omega arith;
      seqnum_fits = omega arith;
      devid_fits = omega arith;
      direction_fits = omega arith;
      ep_fits = omega arith;
    };
    direction_valid = inr (omega arith);
  },
  record {
    transfer_flags_fits = omega arith;
    transfer_buffer_length_fits = omega arith;
    start_frame_fits = omega arith;
    number_of_packets_fits = omega arith;
    interval_fits = omega arith;
    setup_length = refl;
    payload_fits = refl;
    iso_fits = refl;
  },
)

read-to_bytes_example :
    (bytes : List ℕ) × (command_to_bytes true submit ≡ ok bytes)
    × (read_from_socket true (bytes ++ (9 ∷ [])) ≡ ok (submit, 9 ∷ []))
read-to_bytes_example = read-to_bytes true submit (9 ∷ []) (submit_proper true)

-- A request for the list of devices, and the byte behind it.
abbrev devlist_request : List ℕ
devlist_request = 1 ∷ 0x11 ∷ 0x80 ∷ 5 ∷ 0 ∷ 0 ∷ 0 ∷ 0 ∷ []

read_request : read_from_socket true devlist_request ≡ ok (req_devlist 0, [])
unfolding read_from_socket read_u16 check_version read_body read_devlist read_u32
read_request = refl

read-IsWellFormed_example : IsWellFormed true (req_devlist 0)
read-IsWellFormed_example =
    read-IsWellFormed true devlist_request [] (req_devlist 0)
      (
        omega arith,
        (
          omega arith,
          (
            omega arith,
            (omega arith, (omega arith, (omega arith, (omega arith, (omega arith, tt))))),
          ),
        ),
      )
      read_request

read_truncated_example : read_from_socket true (1 ∷ 0x11 ∷ 0x80 ∷ []) ≡ err unexpected_eof
unfolding u16_be u32_be
read_truncated_example =
    read_truncated true (req_devlist 0) (1 ∷ 0x11 ∷ 0x80 ∷ []) 5 (0 ∷ 0 ∷ 0 ∷ 0 ∷ [])
      (omega arith, inr refl) (unfold command_to_bytes in refl)

abbrev short_reply : Response
short_reply =
    ret_submit (record submit_header { command = 3 })
      record {
        status = 0;
        actual_length = 1;
        start_frame = 0;
        number_of_packets = 0;
        error_count = 0;
        transfer_buffer = 5 ∷ [];
        iso_packet_descriptor = [];
      }

length-response_example :
    (bytes : List ℕ) × (response_to_bytes true short_reply ≡ ok bytes)
    × (length bytes ≡ wire_length short_reply)
length-response_example = length-response true short_reply (inr refl)
