-- ===== src/Host/Effects.antt =====
-- Calls of the USB library `nusb`, in the order in which src/host.rs and src/device.rs make them.
use nusbip.Common.{ℕ, List, [], ◌∷◌, Outcome, ok, err, panic, hang, host}
use nusbip.Consts.{EndpointAttributes}
use nusbip.Endpoint.{Direction}
use nusbip.Host.Info.{DeviceInfo}
use nusbip.Host.Control.{ControlIn, ControlOut}

-- Handles are numbers.
pub data Target : Type 0 where
  interface_target device_target : ℕ → Target

pub data Call : Type 0 where
  control_in : Target → ControlIn → Call
  control_out : Target → ControlOut → Call
  open_endpoint : ℕ → (address : ℕ) → EndpointAttributes → Direction → Call
  read_exact transfer_blocking : ℕ → (address len : ℕ) → Call
  write_all : ℕ → (address : ℕ) → List ℕ → Call
  flush : ℕ → (address : ℕ) → Call
  active_configuration : ℕ → Call
  attach_kernel_driver detach_kernel_driver set_configuration : ℕ → ℕ → Call
  list_devices : Call
  open_device : DeviceInfo → Call
  claim_interface : ℕ → ℕ → Call
  reset_device : ℕ → Call

-- A call ends in an answer (the bytes of a transfer, or the numbers of a configuration's
-- interfaces), or in an error.
pub data Answer : Type 0 where
  answered : List ℕ → Answer
  failed : ℕ → Answer

-- The library: its answer to a call after the calls made before, the last first, and what it knows
-- of its handles.
pub record Nusb : Type 0 where
  pub answer : List Call → Call → Answer
  pub max_packet_size : ℕ → ℕ → ℕ
  pub interface_number : ℕ → ℕ

-- A computation that makes calls: its outcome, and all calls made, the last first.
abbrev pub Effect {ℓ} : Type ℓ → Type ℓ
Effect A = List Call → Outcome A × List Call

abbrev pub continue {ℓ κ} :
    {A : Type ℓ} {B : Type κ} → Outcome A × List Call → (A → Effect B) → Outcome B × List Call
continue (ok a, calls) f = f a calls
continue (err e, calls) f = (err e, calls)
continue (panic, calls) f = (panic, calls)
continue (hang, calls) f = (hang, calls)

infixl 5 ◌>>=◌ ◌>>◌
abbrev pub ◌>>=◌ {ℓ κ} : {A : Type ℓ} {B : Type κ} → Effect A → (A → Effect B) → Effect B
◌>>=◌ m f calls = continue (m calls) f

abbrev pub ◌>>◌ {ℓ} : {B : Type ℓ} → Effect (Unit {0}) → Effect B → Effect B
m >> k = m >>= λ _. k

abbrev pub pure {ℓ} : {A : Type ℓ} → A → Effect A
pure a calls = (ok a, calls)

abbrev pub lift {ℓ} : {A : Type ℓ} → Outcome A → Effect A
lift o calls = (o, calls)

-- A call whose error the program looks at.
abbrev pub attempt : Nusb → Call → Effect Answer
attempt nusb call calls = (ok (nusb.answer calls call), call ∷ calls)

abbrev pub or_error : Answer → Outcome (List ℕ)
or_error (answered bytes) = ok bytes
or_error (failed e) = err (host e)

-- A call whose error the program passes on by `?`.
abbrev pub ask : Nusb → Call → Effect (List ℕ)
ask nusb call calls = (or_error (nusb.answer calls call), call ∷ calls)

-- `if let Ok(buf) = … { return Ok(buf) }`, and `Ok(vec![])` for an error.
abbrev pub or_empty : Answer → Outcome (List ℕ)
or_empty (answered bytes) = ok bytes
or_empty (failed e) = ok []
