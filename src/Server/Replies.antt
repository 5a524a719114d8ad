-- ===== src/Server/Replies.antt =====
-- What src/lib.rs answers to a submit.
use nusbip.Common.{
  ℕ, ◌+◌, ◌%◌, ◌^◌, List, [], Option, none, some, Bool, length, Outcome, ok, err, panic, hang, Ends,
  inr, ◌≡◌, refl, ◌∙◌, arith,
}
use nusbip.Protocol.Header.{HeaderBasic, usbip_ret_submit}
use nusbip.Endpoint.{UsbEndpoint, UsbInterface}
use nusbip.Setup.{parse}
use nusbip.Response.{
  RetSubmit, Response, ret_submit, response_to_bytes, usbip_ret_submit_success,
  usbip_ret_submit_fail,
}
use nusbip.Response.Layout.{length-response, wire_length}
use nusbip.Device.{UsbDevice, find_ep}
use nusbip.Device.Urb.{handle_urb}
use nusbip.Device.Ends.{urb-EndsAlways}
use nusbip.Host.Effects.{Nusb, Call}
use nusbip.Server.Submit.{reply_header, real_ep, submit_reply, handle_usbip_cmd_submit}

-- A reply to the request of a header: its sequence number, zeros for device, direction and endpoint,
-- and no packet descriptors, so that it is written in 48 bytes and its data.
abbrev pub Answers : Bool → HeaderBasic → Outcome Response → Type 0
Answers debug h (ok r) =
    (s : RetSubmit) × (r
      ≡ ret_submit (record { command = 3; seqnum = h.seqnum; devid = 0; direction = 0; ep = 0 }) s)
    × (bytes : List ℕ) × (response_to_bytes debug r ≡ ok bytes)
    × (length bytes ≡ 48 + length s.transfer_buffer)
Answers debug h panic = Unit
Answers debug h _ = ⊥

written :
    (debug : Bool) (h : HeaderBasic) (s : RetSubmit)
    → s.iso_packet_descriptor ≡ []
    → Answers debug h (ok (ret_submit (reply_header usbip_ret_submit h) s))
unfolding reply_header wire_length
written debug h s e =
    let (bytes, w, n) =
      length-response debug (ret_submit (reply_header usbip_ret_submit h) s) (inr refl) in
    (s, refl, bytes, w, n ∙ rw e (omega arith))

submit_reply-Answers :
    (debug : Bool) (h : HeaderBasic) (ep : UsbEndpoint) (n : ℕ) (o : Outcome (List ℕ))
    → Ends o
    → Answers debug h (submit_reply (reply_header usbip_ret_submit h) ep n o)
unfolding submit_reply usbip_ret_submit_success usbip_ret_submit_fail
submit_reply-Answers debug h ep n (ok resp) ends = written debug h _ refl
submit_reply-Answers debug h ep n (err e) ends = written debug h _ refl
submit_reply-Answers debug h ep n panic ends = tt
submit_reply-Answers debug h ep n hang ends = ends

-- A submit on any device, with any data and any behaviour of the USB library, gets a reply with its
-- sequence number and zeros in the other fields of the header, which is written in 48 bytes and those
-- of its data, or panics; it never fails and always comes to an end.
pub submit-Answers :
    (nusb : Nusb) (debug : Bool) (header : HeaderBasic) (transfer_buffer_length : ℕ)
    (setup payload : List ℕ) (device : UsbDevice) (calls : List Call)
    → Answers debug header
        (handle_usbip_cmd_submit nusb debug header transfer_buffer_length setup payload device
          calls).0
unfolding handle_usbip_cmd_submit usbip_ret_submit_fail
submit-Answers nusb debug header transfer_buffer_length setup payload device calls =
    by_endpoint (find_ep device (real_ep header % 2 ^ 8))
  where
    by_endpoint :
        (found : Option (UsbEndpoint × Option UsbInterface))
        → let answer : Outcome Response × List Call = elim found [
          | none ↦ (ok (usbip_ret_submit_fail (reply_header usbip_ret_submit header) 0), calls)
          | some (ep, intf) ↦
              (let (outcome, calls') =
                  handle_urb nusb debug device ep intf transfer_buffer_length
                    (parse setup)
                    payload
                    calls in
                (
                  submit_reply
                      (reply_header usbip_ret_submit header)
                      ep
                      transfer_buffer_length
                      outcome,
                  calls',
                ))
        ] in
          Answers debug header answer.0
    by_endpoint none = written debug header _ refl
    by_endpoint (some (ep, intf)) = submit_reply-Answers debug header ep transfer_buffer_length _ (
        (urb-EndsAlways nusb debug device transfer_buffer_length (parse setup) payload ep intf).ends
          calls)
