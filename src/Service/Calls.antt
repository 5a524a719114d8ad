-- ===== src/Service/Calls.antt =====
-- Which calls of the USB library one round of the loop of `handler` in src/lib.rs makes.
use nusbip.Common.{
  ℕ, List, Option, none, some, Bool, ◌==◌, if_both, Outcome, ok, err, panic, hang, kind, ◌%◌, ◌^◌,
  ◌≡◌, refl, sym, subst,
}
use nusbip.Device.{UsbDevice, find_ep}
use nusbip.Endpoint.{UsbEndpoint, UsbInterface}
use nusbip.Setup.{parse}
use nusbip.Protocol.Header.{HeaderBasic, usbip_ret_submit}
use nusbip.Protocol.Command.{Command, req_devlist, req_import, cmd_submit, cmd_unlink}
use nusbip.Protocol.Read.{read_from_socket}
use nusbip.Response.{Response, response_to_bytes, usbip_ret_submit_fail}
use nusbip.Host.Effects.{Nusb, Call}
use nusbip.Host.Calls.{Extends, no_more}
use nusbip.Device.Calls.{About, FoundOwn, find_ep-FoundOwn, urb-Makes}
use nusbip.Device.Urb.{handle_urb}
use nusbip.Server.Import.{handle_op_req_devlist, handle_op_req_import}
use nusbip.Server.Submit.{
  reply_header, real_ep, submit_reply, handle_usbip_cmd_submit, handle_usbip_cmd_unlink,
}
use nusbip.Handler.{
  Connection, drop_device, write_all, write_to_socket, reply, reply_import, dispatch, read_end,
}
use nusbip.Service.{Round, goes_on, panics, hangs, returns, dispatched, round}

-- A call about the imported device; there is none without.
abbrev pub ForDevice : Option UsbDevice → Call → Type 0
ForDevice none call = ⊥
ForDevice (some d) call = About d call

abbrev pub after_round : Round → Connection
after_round (goes_on c) = c
after_round (returns o c) = c
after_round (panics c) = c
after_round (hangs c) = c

submit-Extends :
    (nusb : Nusb) (debug : Bool) (header : HeaderBasic) (n : ℕ) (setup payload : List ℕ)
    (d : UsbDevice) (calls : List Call)
    → Extends (About d) calls (handle_usbip_cmd_submit nusb debug header n setup payload d calls).1
unfolding handle_usbip_cmd_submit
submit-Extends nusb debug header n setup payload d calls =
    at_endpoint (find_ep d (real_ep header % 2 ^ 8)) (find_ep-FoundOwn d (real_ep header % 2 ^ 8))
  where
    at_endpoint :
        (o : Option (UsbEndpoint × Option UsbInterface))
        → FoundOwn d o
        → Extends
            (About d)
            calls
            (elim o as (λ w. Outcome Response × List Call) [
              | none ↦ (ok (usbip_ret_submit_fail (reply_header usbip_ret_submit header) 0), calls)
              | some (ep, intf) ↦
                  (let (outcome, calls') =
                      handle_urb nusb debug d ep intf n (parse setup) payload calls in
                    (submit_reply (reply_header usbip_ret_submit header) ep n outcome, calls'))
            ]).1
    at_endpoint none own = no_more
    at_endpoint (some (ep, intf)) own =
        (urb-Makes nusb debug d n (parse setup) payload ep intf own).made calls

writes-calls : (bytes : List ℕ) (c : Connection) → (write_all bytes c).1.calls ≡ c.calls
unfolding write_all
writes-calls bytes c =
    if_both (λ (r : Outcome (Unit {0}) × Connection). r.1.calls ≡ c.calls) (c.accepts == 0) refl
      refl

sends-calls :
    (debug : Bool) (r : Response) (c : Connection) → (write_to_socket debug r c).1.calls ≡ c.calls
unfolding write_to_socket
sends-calls debug r c = by_bytes (response_to_bytes debug r)
  where
    by_bytes :
        (o : Outcome (List ℕ))
        → (elim o as (λ w. Outcome (Unit {0}) × Connection) [
          | ok bytes ↦ write_all bytes c
          | err e ↦ (err e, c)
          | panic ↦ (panic, c)
          | hang ↦ (hang, c)
        ]).1.calls
          ≡ c.calls
    by_bytes (ok bytes) = writes-calls bytes c
    by_bytes (err e) = refl
    by_bytes panic = refl
    by_bytes hang = refl

reply-calls :
    (debug : Bool) (o : Outcome Response) (c : Connection) → (reply debug o c).1.calls ≡ c.calls
unfolding reply
reply-calls debug (ok r) c = sends-calls debug r c
reply-calls debug (err e) c = refl
reply-calls debug panic c = refl
reply-calls debug hang c = refl

import-calls :
    (debug : Bool) (o : Outcome Response) (c : Connection)
    → (reply_import debug o c).1.calls ≡ c.calls
unfolding reply_import drop_device
import-calls debug (ok r) c = sends-calls debug r c
import-calls debug (err e) c = refl
import-calls debug panic c = refl
import-calls debug hang c = refl

ended_with :
    {P : Call → Type 0} {xs ys zs : List Call} → zs ≡ ys → Extends P xs ys → Extends P xs zs
ended_with {P} {xs} e p = subst (Extends P xs) (sym e) p

module _ (nusb : Nusb) (debug : Bool) where
  dispatch-Extends :
      (command : Command) (c : Connection)
      → Extends (ForDevice c.imported) c.calls (dispatch nusb debug command c).1.calls
  unfolding dispatch
  dispatch-Extends (req_devlist status) c =
      ended_with (reply-calls debug (handle_op_req_devlist c.server) c) no_more
  dispatch-Extends (req_import status busid) c =
      let (r, o, s) = handle_op_req_import busid c.imported c.server in
      ended_with (import-calls debug r (record c { imported = o; server = s })) no_more
  dispatch-Extends (cmd_submit header s) c = by_device c.imported
    where
      by_device :
          (o : Option UsbDevice)
          → Extends
              (ForDevice o)
              c.calls
              (elim o as (λ w. Outcome (Unit {0}) × Connection) [
                | none ↦ (ok tt, c)
                | some device ↦
                    (let (r, calls) =
                        handle_usbip_cmd_submit nusb debug header s.transfer_buffer_length s.setup
                          s.payload device c.calls in
                      reply debug r (record c { calls = calls }))
              ]).1.calls
      by_device none = no_more
      by_device (some device) =
          let p : Outcome Response × List Call =
            handle_usbip_cmd_submit nusb debug header s.transfer_buffer_length s.setup s.payload
              device c.calls in
          ended_with (reply-calls debug p.0 (record c { calls = p.1 })) (
            submit-Extends nusb debug header s.transfer_buffer_length s.setup s.payload device
              c.calls)
  dispatch-Extends (cmd_unlink header unlink_seqnum) c =
      ended_with (reply-calls debug (handle_usbip_cmd_unlink header unlink_seqnum) c) no_more

  dispatched-after : (d : Outcome (Unit {0}) × Connection) → after_round (dispatched d.0 d.1) ≡ d.1
  unfolding dispatched
  dispatched-after (ok _, c') = refl
  dispatched-after (err e, c') = refl
  dispatched-after (panic, c') = refl
  dispatched-after (hang, c') = refl

  read-Extends :
      (c : Connection) (r : Outcome (Command × List ℕ))
      → Extends
          (ForDevice c.imported)
          c.calls
          (after_round (elim r as (λ w. Round) [
            | err e ↦ returns (read_end (kind e) e) (drop_device c)
            | panic ↦ panics c
            | hang ↦ hangs c
            | ok (command, rest) ↦
                (let (outcome, c') = dispatch nusb debug command (record c { input = rest }) in
                  dispatched outcome c')
          ])).calls
  unfolding drop_device
  read-Extends c (ok (command, rest)) =
      let p : Outcome (Unit {0}) × Connection =
        dispatch nusb debug command (record c { input = rest }) in
      subst (λ (x : Connection). Extends (ForDevice c.imported) c.calls x.calls)
        (sym (dispatched-after p)) (dispatch-Extends command (record c { input = rest }))
  read-Extends c (err e) = no_more
  read-Extends c panic = no_more
  read-Extends c hang = no_more

  -- A round makes calls about the imported device only, and none without one.
  pub round-Extends :
      (c : Connection)
      → Extends (ForDevice c.imported) c.calls (after_round (round nusb debug c)).calls
  unfolding round
  round-Extends c = read-Extends c (read_from_socket debug c.input)
