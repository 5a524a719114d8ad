-- ===== src/Service/Rounds.antt =====
-- One round of the loop of `handler` in src/lib.rs: it is the body of that loop, and what it does to the
-- imported device and the lists.
use nusbip.Common.{
  ℕ, suc, List, Option, none, some, Bool, ◌==◌, if_both, Outcome, ok, err, panic, hang, kind, arith,
  ◌≡◌,
}
use nusbip.Device.{UsbDevice}
use nusbip.Protocol.Command.{Command, req_devlist, req_import, cmd_submit, cmd_unlink}
use nusbip.Protocol.Read.{read_from_socket}
use nusbip.Response.{Response, response_to_bytes}
use nusbip.Host.Effects.{Nusb}
use nusbip.Server.{Server}
use nusbip.Server.Import.{give_back, handle_op_req_devlist, handle_op_req_import}
use nusbip.Server.Submit.{handle_usbip_cmd_submit, handle_usbip_cmd_unlink}
use nusbip.Sessions.{finish_import}
use nusbip.Handler.{
  Connection, drop_device, write_all, write_to_socket, reply, reply_import, dispatch, read_end,
  serve,
}
use nusbip.Service.{Round, goes_on, panics, hangs, returns, dispatched, round}

-- The loop after a round.
abbrev pub serve_after : Nusb → Bool → ℕ → Round → Outcome (Unit {0}) × Connection
serve_after nusb debug fuel (goes_on c) = serve nusb debug fuel c
serve_after nusb debug fuel (returns o c) = (o, c)
serve_after nusb debug fuel (panics c) = (panic, c)
serve_after nusb debug fuel (hangs c) = (hang, c)

-- The loop of `handler` is rounds, one after the other.
pub serve-round :
    (nusb : Nusb) (debug : Bool) (fuel : ℕ) (c : Connection)
    → serve nusb debug (suc fuel) c ≡ serve_after nusb debug fuel (round nusb debug c)
unfolding serve round dispatched
serve-round nusb debug fuel c = ground arith

-- What a round may do with the device of the connection and the lists.
pub data Local (o : Option UsbDevice) (s : Server) : Option UsbDevice → Server → Type 0 where
  stays : Local o s o s
  imports :
      (busid : List ℕ)
      → Local o s
          (finish_import (handle_op_req_import busid o s)).0
          (finish_import (handle_op_req_import busid o s)).1
  closes : Local o s none (give_back o s)

abbrev LocalTo : Connection → Connection → Type 0
LocalTo c c' = Local c.imported c.server c'.imported c'.server

abbrev pub RoundIsLocal : Connection → Round → Type 0
RoundIsLocal c (goes_on c') = LocalTo c c'
RoundIsLocal c (returns o c') = LocalTo c c'
RoundIsLocal c (panics c') = LocalTo c c'
RoundIsLocal c (hangs c') = LocalTo c c'

writes-LocalTo :
    (bytes : List ℕ) (c₀ c : Connection) → LocalTo c₀ c → LocalTo c₀ (write_all bytes c).1
unfolding write_all
writes-LocalTo bytes c₀ c l =
    if_both (λ (r : Outcome (Unit {0}) × Connection). LocalTo c₀ r.1) (c.accepts == 0) l l

sends-LocalTo :
    (debug : Bool) (r : Response) (c₀ c : Connection)
    → LocalTo c₀ c
    → LocalTo c₀ (write_to_socket debug r c).1
unfolding write_to_socket
sends-LocalTo debug r c₀ c l = by_bytes (response_to_bytes debug r)
  where
    by_bytes :
        (o : Outcome (List ℕ))
        → LocalTo c₀
            (elim o as (λ w. Outcome (Unit {0}) × Connection) [
              | ok bytes ↦ write_all bytes c
              | err e ↦ (err e, c)
              | panic ↦ (panic, c)
              | hang ↦ (hang, c)
            ]).1
    by_bytes (ok bytes) = writes-LocalTo bytes c₀ c l
    by_bytes (err e) = l
    by_bytes panic = l
    by_bytes hang = l

reply-LocalTo :
    (debug : Bool) (o : Outcome Response) (c₀ c : Connection)
    → LocalTo c₀ c
    → LocalTo c₀ (reply debug o c).1
unfolding reply
reply-LocalTo debug (ok r) c₀ c l = sends-LocalTo debug r c₀ c l
reply-LocalTo debug (err e) c₀ c l = l
reply-LocalTo debug panic c₀ c l = l
reply-LocalTo debug hang c₀ c l = l

-- The state of a connection after an import, by its outcome.
import-LocalTo :
    (debug : Bool) (busid : List ℕ) (c : Connection)
    (p : Outcome Response × Option UsbDevice × Server)
    → Local c.imported c.server (finish_import p).0 (finish_import p).1
    → LocalTo c (reply_import debug p.0 (record c { imported = p.1; server = p.2 })).1
unfolding reply_import drop_device finish_import
import-LocalTo debug busid c (ok r, o, s) l =
    sends-LocalTo debug r c (record c { imported = o; server = s }) l
import-LocalTo debug busid c (err x, o, s) l = l
import-LocalTo debug busid c (panic, o, s) l = l
import-LocalTo debug busid c (hang, o, s) l = l

module _ (nusb : Nusb) (debug : Bool) where
  dispatch-LocalTo :
      (command : Command) (c : Connection) → LocalTo c (dispatch nusb debug command c).1
  unfolding dispatch
  dispatch-LocalTo (req_devlist status) c =
      reply-LocalTo debug (handle_op_req_devlist c.server) c c stays
  dispatch-LocalTo (req_import status busid) c =
      import-LocalTo debug busid c (handle_op_req_import busid c.imported c.server) (imports busid)
  dispatch-LocalTo (cmd_submit header s) c = by_device c.imported
    where
      by_device :
          (o : Option UsbDevice)
          → LocalTo c
              (elim o as (λ w. Outcome (Unit {0}) × Connection) [
                | none ↦ (ok tt, c)
                | some device ↦
                    (let (r, calls) =
                        handle_usbip_cmd_submit nusb debug header s.transfer_buffer_length s.setup
                          s.payload device c.calls in
                      reply debug r (record c { calls = calls }))
              ]).1
      by_device none = stays
      by_device (some device) =
          let (r, calls) =
            handle_usbip_cmd_submit nusb debug header s.transfer_buffer_length s.setup s.payload
              device c.calls in
          reply-LocalTo debug r c (record c { calls = calls }) stays
  dispatch-LocalTo (cmd_unlink header unlink_seqnum) c =
      reply-LocalTo debug (handle_usbip_cmd_unlink header unlink_seqnum) c c stays

  dispatched-RoundIsLocal :
      (c : Connection) (d : Outcome (Unit {0}) × Connection)
      → LocalTo c d.1
      → RoundIsLocal c (dispatched d.0 d.1)
  unfolding dispatched
  dispatched-RoundIsLocal c (ok _, c') l = l
  dispatched-RoundIsLocal c (err e, c') l = l
  dispatched-RoundIsLocal c (panic, c') l = l
  dispatched-RoundIsLocal c (hang, c') l = l

  read-RoundIsLocal :
      (c : Connection) (r : Outcome (Command × List ℕ))
      → RoundIsLocal c (elim r as (λ w. Round) [
        | err e ↦ returns (read_end (kind e) e) (drop_device c)
        | panic ↦ panics c
        | hang ↦ hangs c
        | ok (command, rest) ↦
            (let (outcome, c') = dispatch nusb debug command (record c { input = rest }) in
              dispatched outcome c')
      ])
  unfolding drop_device
  read-RoundIsLocal c (ok (command, rest)) =
      dispatched-RoundIsLocal c (dispatch nusb debug command (record c { input = rest }))
        (dispatch-LocalTo command (record c { input = rest }))
  read-RoundIsLocal c (err e) = closes
  read-RoundIsLocal c panic = stays
  read-RoundIsLocal c hang = stays

  pub round-RoundIsLocal : (c : Connection) → RoundIsLocal c (round nusb debug c)
  unfolding round
  round-RoundIsLocal c = read-RoundIsLocal c (read_from_socket debug c.input)
