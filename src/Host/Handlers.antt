-- ===== src/Host/Handlers.antt =====
-- The handler objects of src/host.rs, `NusbUsbHostInterfaceHandler` and `NusbUsbHostDeviceHandler`.
-- A `std::sync::Mutex` is poisoned by a panic under its lock, and `lock().unwrap()` panics then.
pub mod Bounds
pub mod Laws
pub mod Reset
use nusbip.Common.{
  ℕ, ◌%◌, ◌^◌, List, [], ◌∷◌, Option, none, some, Bool, true, false, ◌==◌, if◌then◌else◌, bit_and,
  Outcome, ok, err, panic, hang, device_gone, open_failed,
}
use nusbip.Consts.{control, bulk, interrupt, attributes_code}
use nusbip.Endpoint.{UsbEndpoint, Direction, out_dir, in_dir, direction}
use nusbip.Setup.{SetupPacket, parse}
use nusbip.Host.Info.{DeviceInfo}
use nusbip.Host.Effects.{
  Nusb, Call, Effect, ◌>>=◌, ◌>>◌, pure, lift, ask, attempt, or_empty, interface_target,
  device_target, control_in, control_out, open_endpoint, read_exact, write_all, flush, reset_device,
  set_configuration,
}
use nusbip.Host.Bus.{Bus, Reply, got, refused, list_all, open_info, or_fail}
use nusbip.Host.Control.{control_type, recipient, control_in_of, control_out_of}
use nusbip.Host.{release_claim}

-- `into_iter().find(|d| d.vendor_id() == vid)`.
unfoldable pub find_vendor : ℕ → List DeviceInfo → Option DeviceInfo
find_vendor vid [] = none
find_vendor vid (info ∷ infos) = if info.vendor_id == vid then some info else find_vendor vid infos

module _ (nusb : Nusb) where
  -- `NusbUsbHostInterfaceHandler::handle_urb`, with the handle of the interface. The buffer of
  -- `transfer_buffer_length` bytes, which the source allocates at first for every transfer, is only what an IN
  -- transfer is read into. Here the source sets no number of transfers, unlike `handle_urb_for_interface`;
  -- neither has that in the model.
  unfoldable pub interface_handler_urb :
      ℕ → UsbEndpoint → ℕ → SetupPacket → List ℕ → Effect (List ℕ)
  unfolding attributes_code
  interface_handler_urb handle ep transfer_buffer_length setup req =
      if ep.attributes == attributes_code control
      then (elim (direction ep) [
        | in_dir ↦ do
          kind ← lift (control_type setup)
          to ← lift (recipient setup)
          answer ← attempt nusb (control_in (interface_target handle) (control_in_of kind to setup))
          lift (or_empty answer)
        | out_dir ↦ do
          kind ← lift (control_type setup)
          to ← lift (recipient setup)
          sent ← ask nusb (control_out (interface_target handle) (control_out_of kind to setup req))
          pure []
      ])
      else if ep.attributes == attributes_code interrupt
      then (elim (direction ep) [
        | in_dir ↦ do
          opened ← ask nusb (open_endpoint handle ep.address interrupt in_dir)
          answer ← attempt nusb (read_exact handle ep.address transfer_buffer_length)
          lift (or_empty answer)
        | out_dir ↦ do
          opened ← ask nusb (open_endpoint handle ep.address interrupt out_dir)
          written ← ask nusb (write_all handle ep.address req)
          flushed ← ask nusb (flush handle ep.address)
          pure []
      ])
      else if ep.attributes == attributes_code bulk
      then (elim (direction ep) [
        | in_dir ↦ do
          opened ← ask nusb (open_endpoint handle ep.address bulk in_dir)
          ask nusb (read_exact handle ep.address transfer_buffer_length)
        | out_dir ↦ do
          opened ← ask nusb (open_endpoint handle ep.address bulk out_dir)
          written ← ask nusb (write_all handle ep.address req)
          flushed ← ask nusb (flush handle ep.address)
          pure []
      ])
      else pure []

  -- `NusbUsbHostDeviceHandler::handle_urb` under its lock, on a system that is not Windows.
  unfoldable pub device_urb_locked : SetupPacket → List ℕ → ℕ → Effect (List ℕ)
  device_urb_locked setup req device =
      if bit_and setup.request_type 0x80 == 0
      then (do
        kind ← lift (control_type setup)
        to ← lift (recipient setup)
        sent ← ask nusb (control_out (device_target device) (control_out_of kind to setup req))
        pure [])
      else do
        kind ← lift (control_type setup)
        to ← lift (recipient setup)
        answer ← attempt nusb (control_in (device_target device) (control_in_of kind to setup))
        lift (or_empty answer)

  -- `set_configuration` of the handler, under its lock.
  unfoldable pub set_configuration_locked : List ℕ → ℕ → Effect (Unit {0})
  set_configuration_locked setup device = do
    done ← ask nusb (set_configuration device ((parse setup).value % 2 ^ 8))
    pure tt

  -- `reset`, under the lock: the handle for the new device, the first of its vendor.
  unfoldable pub reset_locked : Bus → ℕ → Effect ℕ
  unfolding find_vendor
  reset_locked bus device = do
    done ← ask nusb (reset_device device)
    listed ← list_all bus
    infos ← lift (or_fail listed)
    elim (find_vendor (bus.vendor_of device) infos) [
      | some info ↦ do
        opened ← open_info bus info
        elim opened [ got fresh ↦ pure fresh | refused e ↦ lift (err open_failed) ]
      | none ↦ lift (err device_gone)
    ]

-- The handle of the device behind its lock.
pub record DeviceHandler : Type 0 where
  pub handle : ℕ
  pub poisoned : Bool

abbrev pub is_panic {ℓ} : {A : Type ℓ} → Outcome A → Bool
is_panic panic = true
is_panic _ = false

-- A call under the lock, which changes the handle as `next` says.
unfoldable pub with_lock {ℓ} :
    {A : Type ℓ}
    → (ℕ → Effect A)
    → (next : Outcome A → ℕ → ℕ) → DeviceHandler
    → List Call
    → (Outcome A × DeviceHandler) × List Call
with_lock body next h calls =
    if h.poisoned
    then ((panic, h), calls)
    else let (o, calls') = body h.handle calls in
      ((o, record { handle = next o h.handle; poisoned = is_panic o }), calls')

abbrev pub keep {ℓ} : {A : Type ℓ} → Outcome A → ℕ → ℕ
keep o handle = handle

abbrev pub replace : Outcome ℕ → ℕ → ℕ
replace (ok fresh) handle = fresh
replace _ handle = handle

-- The methods of the handler.
pub data Method : Type 0 where
  handles_urb : SetupPacket → List ℕ → Method
  releases_claim resets : Method
  sets_configuration : List ℕ → Method

-- The outcome of a method with nothing to return.
abbrev pub done {ℓ} :
    {A : Type ℓ}
    → (Outcome A × DeviceHandler) × List Call
    → (Outcome (List ℕ) × DeviceHandler) × List Call
done ((ok a, h), calls) = ((ok [], h), calls)
done ((err e, h), calls) = ((err e, h), calls)
done ((panic, h), calls) = ((panic, h), calls)
done ((hang, h), calls) = ((hang, h), calls)

-- One call of a method; `release_claim` is the loop of the function of that name.
unfoldable pub call_method :
    Nusb
    → Bus
    → Bool
    → Method
    → DeviceHandler
    → List Call
    → (Outcome (List ℕ) × DeviceHandler) × List Call
unfolding with_lock
call_method nusb bus debug (handles_urb setup req) h calls =
    with_lock (device_urb_locked nusb setup req) keep h calls
call_method nusb bus debug releases_claim h calls =
    done (with_lock (release_claim nusb debug) keep h calls)
call_method nusb bus debug resets h calls = done (with_lock (reset_locked nusb bus) replace h calls)
call_method nusb bus debug (sets_configuration setup) h calls =
    done (with_lock (set_configuration_locked nusb setup) keep h calls)

-- A row of calls, with the outcome of each.
unfoldable pub call_methods :
    Nusb
    → Bus
    → Bool
    → List Method
    → DeviceHandler
    → List Call
    → (List (Outcome (List ℕ)) × DeviceHandler) × List Call
call_methods nusb bus debug [] h calls = (([], h), calls)
call_methods nusb bus debug (m ∷ ms) h calls =
    let ((o, h'), calls') = call_method nusb bus debug m h calls in
    let ((os, h''), calls'') = call_methods nusb bus debug ms h' calls' in ((o ∷ os, h''), calls'')
