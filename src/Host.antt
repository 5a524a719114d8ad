-- ===== src/Host.antt =====
-- src/host.rs: passing requests on to a device of the host.
-- The USB library `nusb` is a parameter: what it answers to a call may depend on all calls before.
-- Left out are the timeouts, the sizes of readers and writers (4096) and the number of transfers of an
-- endpoint (`with_num_transfers(1)`), which the program passes on and which are constants of the place of
-- the call, and the warnings.
pub mod Info
pub mod Effects
pub mod Bus
pub mod Yields
pub mod Handlers
pub mod Control
pub mod Length
pub mod Ends
pub mod Bounds
pub mod Calls
use nusbip.Common.{
  ℕ, ◌+◌, ◌-◌, ◌*◌, ◌/◌, ◌%◌, ◌^◌, List, [], ◌∷◌, Option, none, some, Bool, ◌&&◌, ◌==◌,
  if◌then◌else◌, bit_and, Outcome, ok, panic,
}
use nusbip.Consts.{control, bulk, interrupt, attributes_code}
use nusbip.Endpoint.{UsbEndpoint, Direction, out_dir, in_dir, direction}
use nusbip.Setup.{SetupPacket}
use Effects.{
  Nusb, Effect, ◌>>=◌, ◌>>◌, pure, lift, ask, attempt, or_empty, answered, failed, Answer, Target,
  interface_target, device_target, control_in, control_out, open_endpoint, read_exact, write_all,
  flush, transfer_blocking, active_configuration, attach_kernel_driver,
}
use Control.{ControlType, Recipient, control_type, recipient, control_in_of, control_out_of}

-- `((transfer_buffer_length - 1) as usize / max_packet_size + 1) * max_packet_size`: the subtraction
-- on `u32` panics at 0 in a debug build and wraps in any other; the division panics at 0.
unfoldable pub requested_len : Bool → ℕ → ℕ → Outcome ℕ
requested_len debug transfer_buffer_length max_packet_size =
    if debug && transfer_buffer_length == 0
    then panic
    else if max_packet_size == 0
    then panic
    else ok
        (((transfer_buffer_length + 2 ^ 32 - 1) % 2 ^ 32 / max_packet_size + 1) * max_packet_size)

module _ (nusb : Nusb) (debug : Bool) where
  -- A control transfer to an interface or to the device. A control IN that fails has no data.
  unfoldable pub control_transfer : Target → Direction → SetupPacket → List ℕ → Effect (List ℕ)
  control_transfer target dir setup req = do
    kind ← lift (control_type setup)
    to ← lift (recipient setup)
    elim dir [
      | in_dir ↦ do
        answer ← attempt nusb (control_in target (control_in_of kind to setup))
        lift (or_empty answer)
      | out_dir ↦ do
        sent ← ask nusb (control_out target (control_out_of kind to setup req))
        pure []
    ]

  unfoldable pub interrupt_transfer : ℕ → UsbEndpoint → ℕ → List ℕ → Effect (List ℕ)
  interrupt_transfer interface ep transfer_buffer_length req = elim (direction ep) [
    | in_dir ↦ do
      opened ← ask nusb (open_endpoint interface ep.address interrupt in_dir)
      answer ← attempt nusb (read_exact interface ep.address transfer_buffer_length)
      lift (or_empty answer)
    | out_dir ↦ do
      opened ← ask nusb (open_endpoint interface ep.address interrupt out_dir)
      written ← ask nusb (write_all interface ep.address req)
      flushed ← ask nusb (flush interface ep.address)
      pure []
  ]

  unfoldable pub bulk_transfer : ℕ → UsbEndpoint → ℕ → List ℕ → Effect (List ℕ)
  unfolding requested_len
  bulk_transfer interface ep transfer_buffer_length req = elim (direction ep) [
    | in_dir ↦ do
      opened ← ask nusb (open_endpoint interface ep.address bulk in_dir)
      len ←
          lift
            (requested_len debug transfer_buffer_length (nusb.max_packet_size interface ep.address))
      ask nusb (transfer_blocking interface ep.address len)
    | out_dir ↦ do
      opened ← ask nusb (open_endpoint interface ep.address bulk out_dir)
      written ← ask nusb (write_all interface ep.address req)
      flushed ← ask nusb (flush interface ep.address)
      pure []
  ]

  -- `handle_urb_for_interface`.
  unfoldable pub handle_urb_for_interface :
      ℕ → UsbEndpoint → ℕ → SetupPacket → List ℕ → Effect (List ℕ)
  unfolding attributes_code
  handle_urb_for_interface interface ep transfer_buffer_length setup req =
      if ep.attributes == attributes_code control
      then control_transfer (interface_target interface) (direction ep) setup req
      else if ep.attributes == attributes_code interrupt
      then interrupt_transfer interface ep transfer_buffer_length req
      else if ep.attributes == attributes_code bulk
      then bulk_transfer interface ep transfer_buffer_length req
      else pure []

  -- `handle_urb_for_device`, on a system that is not Windows: the direction is that of the request.
  unfoldable pub handle_urb_for_device : ℕ → SetupPacket → List ℕ → Effect (List ℕ)
  handle_urb_for_device device setup req =
      control_transfer (device_target device)
        (if bit_and setup.request_type 0x80 == 0 then out_dir else in_dir) setup req

  -- The loop of `release_claim`: a driver that cannot be attached is passed over.
  unfoldable pub attach_all : ℕ → List ℕ → Effect (Unit {0})
  attach_all device [] = pure tt
  attach_all device (n ∷ ns) = do
    ignored ← attempt nusb (attach_kernel_driver device n)
    attach_all device ns

  -- `release_claim` of src/device.rs: the answer of `active_configuration` is the numbers of its
  -- interfaces.
  unfoldable pub release_claim : ℕ → Effect (Unit {0})
  unfolding attach_all
  release_claim device = do
    cfg ← attempt nusb (active_configuration device)
    elim cfg [ answered interfaces ↦ attach_all device interfaces | failed e ↦ pure tt ]
