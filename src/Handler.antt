-- ===== src/Handler.antt =====
-- `handler` and the task that `server` spawns for a connection, in src/lib.rs.
pub mod Input
pub mod Runs
pub mod Ends
pub mod Panics
pub mod Restores
use nusbip.Common.{
  ℕ, zero, suc, ◌-◌, List, ◌++◌, Option, none, some, Bool, ◌==◌, if◌then◌else◌, length, Outcome, ok,
  err, panic, hang, Error, ErrorKind, kind, kind_unexpected_eof, broken_pipe,
}
use nusbip.Protocol.Command.{Command, req_devlist, req_import, cmd_submit, cmd_unlink}
use nusbip.Protocol.Read.{read_from_socket}
use nusbip.Response.{Response, response_to_bytes}
use nusbip.Device.{UsbDevice}
use nusbip.Server.{Server}
use nusbip.Server.Import.{give_back, handle_op_req_devlist, handle_op_req_import}
use nusbip.Server.Submit.{handle_usbip_cmd_submit, handle_usbip_cmd_unlink}
use nusbip.Host.Effects.{Nusb, Call}

-- A connection and the server behind it. The socket is the `MockSocket` of src/util.rs, the bytes to
-- come and the bytes written, with a number of writes after which the peer accepts no more.
pub record Connection : Type 0 where
  pub server : Server
  pub imported : Option UsbDevice
  pub input : List ℕ
  pub output : List ℕ
  pub accepts : ℕ
  pub calls : List Call

-- `imported_device.take()` and `release`.
unfoldable pub drop_device : Connection → Connection
unfolding give_back
drop_device c = record c { server = give_back c.imported c.server; imported = none }

unfoldable pub write_all : List ℕ → Connection → Outcome (Unit {0}) × Connection
write_all bytes c =
    if c.accepts == 0
    then (err broken_pipe, c)
    else (ok tt, record c { output = c.output ++ bytes; accepts = c.accepts - 1 })

-- `UsbIpResponse::write_to_socket`.
unfoldable pub write_to_socket : Bool → Response → Connection → Outcome (Unit {0}) × Connection
unfolding write_all
write_to_socket debug r c = elim (response_to_bytes debug r) [
  | ok bytes ↦ write_all bytes c
  | err e ↦ (err e, c)
  | panic ↦ (panic, c)
  | hang ↦ (hang, c)
]

-- A reply is written; an error of the handler is logged, and the loop goes on.
unfoldable pub reply : Bool → Outcome Response → Connection → Outcome (Unit {0}) × Connection
reply debug (ok r) c = write_to_socket debug r c
reply debug (err e) c = (ok tt, c)
reply debug panic c = (panic, c)
reply debug hang c = (hang, c)

-- After an import: an error gives the device back.
unfoldable pub reply_import : Bool → Outcome Response → Connection → Outcome (Unit {0}) × Connection
unfolding drop_device
reply_import debug (ok r) c = write_to_socket debug r c
reply_import debug (err e) c = (ok tt, drop_device c)
reply_import debug panic c = (panic, c)
reply_import debug hang c = (hang, c)

-- One command. `ok` goes on with the next, an error is returned by `?`.
unfoldable pub dispatch : Nusb → Bool → Command → Connection → Outcome (Unit {0}) × Connection
unfolding reply reply_import
dispatch nusb debug (req_devlist status) c = reply debug (handle_op_req_devlist c.server) c
dispatch nusb debug (req_import status busid) c =
    let (r, imported, server) = handle_op_req_import busid c.imported c.server in
    reply_import debug r (record c { imported = imported; server = server })
dispatch nusb debug (cmd_submit header s) c = elim c.imported [
  | none ↦ (ok tt, c)
  | some device ↦
      (let (r, calls) =
          handle_usbip_cmd_submit nusb debug header s.transfer_buffer_length s.setup s.payload
            device c.calls in
        reply debug r (record c { calls = calls }))
]
dispatch nusb debug (cmd_unlink header unlink_seqnum) c =
    reply debug (handle_usbip_cmd_unlink header unlink_seqnum) c

-- The return for a read that fails: the end of the input is a proper end.
unfoldable pub read_end : ErrorKind → Error → Outcome (Unit {0})
read_end kind_unexpected_eof e = ok tt
read_end _ e = err e

-- The loop of `handler`. The fuel counts rounds; each but the last takes a byte of the input.
unfoldable pub serve : Nusb → Bool → ℕ → Connection → Outcome (Unit {0}) × Connection
unfolding read_end drop_device
serve nusb debug zero c = (hang, c)
serve nusb debug (suc fuel) c = elim (read_from_socket debug c.input) [
  | err e ↦ (read_end (kind e) e, drop_device c)
  | panic ↦ (panic, c)
  | hang ↦ (hang, c)
  | ok (command, rest) ↦
      (let (outcome, c') = dispatch nusb debug command (record c { input = rest }) in
        elim outcome [
          | ok _ ↦ serve nusb debug fuel c'
          | err e ↦ (err e, c')
          | panic ↦ (panic, c')
          | hang ↦ (hang, c')
        ])
]

-- `handler`.
unfoldable pub handler : Nusb → Bool → Connection → Outcome (Unit {0}) × Connection
handler nusb debug c = serve nusb debug (suc (length c.input)) c

-- The task of a connection: `handler`, and then the release of a device that is still imported. A
-- panic of `handler` ends the task at once.
unfoldable pub connection_task : Nusb → Bool → Connection → Connection
unfolding drop_device
connection_task nusb debug c =
    let (outcome, c') = handler nusb debug c in
    elim outcome [ ok _ ↦ drop_device c' | err e ↦ drop_device c' | panic ↦ c' | hang ↦ c' ]
