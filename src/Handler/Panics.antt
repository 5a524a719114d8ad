-- ===== src/Handler/Panics.antt =====
-- A request to an interface that the imported device does not have, in `handler` of src/lib.rs.
use nusbip.Common.{
  ℕ, ◌%◌, ◌^◌, List, ◌++◌, Option, none, some, Bool, false, bit_and, get_elem?, Outcome, ok, panic,
  ◌≡◌, refl, sym, ap, subst, ◌∙◌, arith,
}
use nusbip.Consts.{control, attributes_from, StandardRequest, request_from}
use nusbip.Setup.{SetupPacket, parse}
use nusbip.Endpoint.{UsbEndpoint, UsbInterface, Direction, in_dir, out_dir, direction}
use nusbip.Device.{UsbDevice, find_ep}
use nusbip.Device.Urb.{
  is_get_descriptor, is_set_configuration, to_interface, control_in_urb, control_out_urb,
  handle_urb,
}
use nusbip.Host.Effects.{Nusb, Call, Effect}
use nusbip.Protocol.Header.{HeaderBasic}
use nusbip.Protocol.Command.{Submit, cmd_submit, command_to_bytes}
use nusbip.Protocol.WellFormed.{IsWellFormed}
use nusbip.Protocol.RoundTrip.{read-to_bytes}
use nusbip.Server.Submit.{real_ep, submit_reply, handle_usbip_cmd_submit}
use nusbip.Handler.{Connection, reply, dispatch, handler, connection_task}
use nusbip.Handler.Input.{with_input}
use nusbip.Handler.Runs.{serve-command, after_dispatch}

not_get_descriptor :
    (setup : SetupPacket) (r : Option StandardRequest)
    → bit_and setup.request_type 0xf ≡ 1
    → is_get_descriptor setup r ≡ false
unfolding is_get_descriptor
not_get_descriptor setup r e = ground arith

not_set_configuration :
    (setup : SetupPacket) (r : Option StandardRequest)
    → bit_and setup.request_type 0xf ≡ 1
    → is_set_configuration setup r ≡ false
unfolding is_set_configuration
not_set_configuration setup r e = ground arith

module _ (nusb : Nusb) (debug : Bool) (d : UsbDevice) (ep : UsbEndpoint)
    (intf : Option UsbInterface) (n : ℕ) (setup : SetupPacket) (out_data : List ℕ)
    (calls : List Call) (is_control : attributes_from ep.attributes ≡ some control)
    (to : bit_and setup.request_type 0xf ≡ 1)
    (missing : get_elem? d.interfaces (bit_and setup.index 0xff) ≡ none) where
  interface_panics : to_interface nusb debug d ep n setup out_data calls ≡ (panic, calls)
  unfolding to_interface
  interface_panics = rw (to_interface, missing) refl

  urb_panics : handle_urb nusb debug d ep intf n setup out_data calls ≡ (panic, calls)
  unfolding handle_urb control_in_urb control_out_urb
  urb_panics = rw (handle_urb, is_control) (by_direction (direction ep))
    where
      by_direction :
          (way : Direction)
          → (elim way as (λ w. Effect (List ℕ)) [
            | in_dir ↦ control_in_urb nusb debug d ep n setup out_data
            | out_dir ↦ control_out_urb nusb debug d ep intf n setup out_data
          ])
              calls
            ≡ (panic, calls)
      by_direction in_dir =
          rw (not_get_descriptor setup (request_from setup.request) to, to) interface_panics
      by_direction out_dir =
          rw (not_set_configuration setup (request_from setup.request) to, to) interface_panics

-- The task of a connection whose `handler` panics keeps what it has.
task_panics :
    (nusb : Nusb) (debug : Bool) (c c' : Connection)
    → handler nusb debug c ≡ (panic, c')
    → connection_task nusb debug c ≡ c'
unfolding connection_task
task_panics nusb debug c c' e =
    rw (connection_task, e) (ap (λ (p : Outcome (Unit {0}) × Connection). p.1) e)

-- A connection that has imported a device, and whose next command is a submit to one of its control
-- endpoints, with a setup packet to an interface that the device does not have: the command has a wire
-- form, on which `handler` panics; the task ends, and the lists of the server stay as they are, so
-- that the device is not released.
pub missing_interface_lem :
    (nusb : Nusb) (debug : Bool) (h : HeaderBasic) (s : Submit) (tail : List ℕ) (c : Connection)
    (d : UsbDevice) (ep : UsbEndpoint) (intf : Option UsbInterface)
    → IsWellFormed debug (cmd_submit h s)
    → c.imported ≡ some d
    → find_ep d (real_ep h % 2 ^ 8) ≡ some (ep, intf)
    → attributes_from ep.attributes ≡ some control
    → bit_and (parse s.setup).request_type 0xf ≡ 1
    → get_elem? d.interfaces (bit_and (parse s.setup).index 0xff) ≡ none
    → (bytes : List ℕ) × (command_to_bytes debug (cmd_submit h s) ≡ ok bytes)
      × ((handler nusb debug (with_input (bytes ++ tail) c)).0 ≡ panic)
      × ((connection_task nusb debug (with_input (bytes ++ tail) c)).server ≡ c.server)
unfolding handle_usbip_cmd_submit submit_reply dispatch reply handler
missing_interface_lem nusb debug h s tail c d ep intf w imported found is_control to missing =
    let (bytes, e, r) = read-to_bytes debug (cmd_submit h s) tail w in
    let panics : handler nusb debug (with_input (bytes ++ tail) c) ≡ (panic, with_input tail c) =
      serve-command nusb debug _ (with_input (bytes ++ tail) c) _ tail r
      ∙ ap (after_dispatch nusb debug _) dispatched in
    (
      bytes,
      e,
      ap (λ (p : Outcome (Unit {0}) × Connection). p.0) panics,
      ap (λ (x : Connection). x.server) (task_panics nusb debug _ (with_input tail c) panics),
    )
  where
    submitted :
        handle_usbip_cmd_submit nusb debug h s.transfer_buffer_length s.setup s.payload d c.calls
        ≡ (panic, c.calls)
    submitted =
        rw
          (
            handle_usbip_cmd_submit,
            found,
            urb_panics nusb debug d ep intf s.transfer_buffer_length (parse s.setup) s.payload
                c.calls is_control to missing,
          )
          refl

    dispatched :
        dispatch nusb debug (cmd_submit h s) (with_input tail c) ≡ (panic, with_input tail c)
    dispatched =
        subst
          (λ (o : Option UsbDevice).
            (elim o as (λ w. Outcome (Unit {0}) × Connection) [
              | none ↦ (ok tt, with_input tail c)
              | some device ↦
                  (let (r, calls) =
                      handle_usbip_cmd_submit nusb debug h s.transfer_buffer_length s.setup
                        s.payload device c.calls in
                    reply debug r (record (with_input tail c) { calls = calls }))
            ])
            ≡ (panic, with_input tail c))
          (sym imported) (rw submitted refl)
