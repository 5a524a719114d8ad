-- ===== src/Server/Submit.antt =====
-- The handlers of src/lib.rs for the two commands about a transfer.
use nusbip.Common.{
  ℕ, ◌%◌, ◌^◌, List, [], none, some, Bool, ◌==◌, if◌then◌else◌, bit_or, length, Outcome, ok, err,
  panic, hang,
}
use nusbip.Protocol.Header.{HeaderBasic, usbip_ret_submit, usbip_ret_unlink}
use nusbip.Response.{
  Response, usbip_ret_submit_success, usbip_ret_submit_fail, usbip_ret_unlink_success,
}
use nusbip.Endpoint.{UsbEndpoint, in_dir, out_dir, direction}
use nusbip.Setup.{parse}
use nusbip.Device.{UsbDevice, find_ep}
use nusbip.Device.Urb.{handle_urb}
use nusbip.Host.Effects.{Nusb, Effect}

-- The header of a reply: its command, the sequence number, and zeros.
unfoldable pub reply_header : ℕ → HeaderBasic → HeaderBasic
reply_header command header = record header { command = command; devid = 0; direction = 0; ep = 0 }

-- The endpoint's address: bit 7 is set on every transfer but to the device.
unfoldable pub real_ep : HeaderBasic → ℕ
real_ep header = if header.direction == 0 then header.ep else bit_or header.ep 0x80

unfoldable pub sent_length : UsbEndpoint → (transfer_buffer_length received : ℕ) → ℕ
sent_length ep transfer_buffer_length received = elim (direction ep) [
  | in_dir ↦ received
  | out_dir ↦ transfer_buffer_length
]

-- The reply for an outcome of `handle_urb`. A panic goes on.
unfoldable pub submit_reply : HeaderBasic → UsbEndpoint → ℕ → Outcome (List ℕ) → Outcome Response
unfolding sent_length
submit_reply header ep transfer_buffer_length (ok resp) = ok (
    usbip_ret_submit_success header 0 (sent_length ep transfer_buffer_length (length resp % 2 ^ 32))
      resp [])
submit_reply header ep transfer_buffer_length (err e) =
    ok (usbip_ret_submit_fail header (sent_length ep transfer_buffer_length 0))
submit_reply header ep transfer_buffer_length panic = panic
submit_reply header ep transfer_buffer_length hang = hang

-- `UsbIpServer::handle_usbip_cmd_submit`; the endpoint is looked up by `real_ep as u8`.
unfoldable pub handle_usbip_cmd_submit :
    Nusb
    → Bool
    → HeaderBasic
    → (transfer_buffer_length : ℕ) → (setup payload : List ℕ) → UsbDevice
    → Effect Response
unfolding submit_reply
handle_usbip_cmd_submit nusb debug header transfer_buffer_length setup payload device calls =
    let reply = reply_header usbip_ret_submit header in
    elim (find_ep device (real_ep header % 2 ^ 8)) [
      | none ↦ (ok (usbip_ret_submit_fail reply 0), calls)
      | some (ep, intf) ↦
          (let (outcome, calls') =
              handle_urb nusb debug device ep intf transfer_buffer_length (parse setup) payload
                calls in
            (submit_reply reply ep transfer_buffer_length outcome, calls'))
    ]

-- `UsbIpServer::handle_usbip_cmd_unlink`.
unfoldable pub handle_usbip_cmd_unlink : HeaderBasic → ℕ → Outcome Response
handle_usbip_cmd_unlink header unlink_seqnum =
    ok (usbip_ret_unlink_success (reply_header usbip_ret_unlink header))
