-- ===== src/Tests/Handler.antt =====
-- A connection of src/lib.rs that asks for the list of devices and breaks off in the next command.
use nusbip.Common.{
  false, bytes_eq, broken_pipe, ℕ, List, [], ◌∷◌, ◌++◌, none, true, replicate, ok, err,
  unexpected_eof, Ends, inr, ◌≡◌, refl, arith,
}
use nusbip.Protocol.Command.{req_devlist}
use nusbip.Protocol.Read.{read_from_socket, check_version, read_body, read_import}
use nusbip.Protocol.Input.{read_u16, read_u32, read_exact}
use nusbip.Server.Submit.{handle_usbip_cmd_submit}
use nusbip.Server.Replies.{Answers, submit-Answers}
use nusbip.Host.Effects.{Nusb, failed}
use nusbip.Server.{occupy}
use nusbip.Server.Devices.{has, take_device}
use nusbip.Server.Import.{handle_op_req_import}
use nusbip.Server.Utf8.{is_utf8}
use nusbip.Response.{response_to_bytes, op_rep_import_success, imported_to_bytes}
use nusbip.Device.Bytes.{device_to_bytes}
use nusbip.Handler.{
  Connection, handler, connection_task, serve, dispatch, write_to_socket, write_all, reply_import,
}
use nusbip.Handler.Restores.{connection_task_lem}
use nusbip.Handler.Input.{at_input, with_input}
use nusbip.Handler.Runs.{run_commands, commands_to_bytes, handler-commands_to_bytes}
use nusbip.Handler.Ends.{handler-Ends}
use nusbip.Tests.Data.{device_named, submit_header}

-- A host without devices: every call fails.
abbrev no_host : Nusb
no_host = record {
  answer = λ calls call. failed 19;
  max_packet_size = λ i address. 512;
  interface_number = λ handle. 0;
}

abbrev connection : Connection
connection = record {
  server = record { available = device_named (49 ∷ []) ∷ []; used = [] };
  imported = none;
  input = 1 ∷ 0x11 ∷ 0x80 ∷ 5 ∷ 0 ∷ 0 ∷ 0 ∷ 0 ∷ 1 ∷ [];
  output = [];
  accepts = 3;
  calls = [];
}

cut_off : read_from_socket true (1 ∷ []) ≡ err unexpected_eof
unfolding read_from_socket read_u16
cut_off = refl

handler-commands_to_bytes_example :
    (bytes : List ℕ) × (commands_to_bytes true (req_devlist 0 ∷ []) ≡ ok bytes)
    × (at_input [] (handler no_host true (with_input (bytes ++ (1 ∷ [])) connection))
        ≡ run_commands no_host true (req_devlist 0 ∷ []) (with_input [] connection))
handler-commands_to_bytes_example =
    handler-commands_to_bytes no_host true (req_devlist 0 ∷ []) (1 ∷ []) connection cut_off
      ((omega arith, inr refl), tt)

handler-Ends_example : Ends (handler no_host true connection).0
handler-Ends_example = handler-Ends no_host true connection

submit-Answers_example :
    Answers true submit_header
      (handle_usbip_cmd_submit no_host true submit_header 2
        (replicate 8 0)
        (0xaa ∷ 0xbb ∷ [])
        (device_named (49 ∷ []))
        []).0
submit-Answers_example =
    submit-Answers no_host true submit_header 2 (replicate 8 0) (0xaa ∷ 0xbb ∷ [])
      (device_named (49 ∷ [])) []

-- It imports the device, and the peer is gone before the reply.
abbrev importing : Connection
importing = record connection {
  input = 1 ∷ 0x11 ∷ 0x80 ∷ 3 ∷ 0 ∷ 0 ∷ 0 ∷ 0 ∷ 49 ∷ replicate 31 0;
  accepts = 0;
}

importing_outcome : (handler no_host false importing).0 ≡ err broken_pipe
unfolding handler serve read_from_socket read_u16 check_version read_body read_import read_u32
    read_exact dispatch handle_op_req_import is_utf8 occupy take_device bytes_eq write_to_socket
    response_to_bytes op_rep_import_success imported_to_bytes device_to_bytes write_all reply_import
importing_outcome = refl

connection_task_example :
    ((connection_task no_host false importing).imported ≡ none)
    × (has (49 ∷ []) (connection_task no_host false importing).server.available
        ≡ has (49 ∷ []) importing.server.available)
unfolding has
connection_task_example =
    connection_task_lem no_host false importing (49 ∷ []) refl (refl, tt)
      λ p. cc (p, importing_outcome)
