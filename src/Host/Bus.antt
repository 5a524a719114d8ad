-- ===== src/Host/Bus.antt =====
-- The calls of the USB library `nusb` that find and open devices of the host.
use nusbip.Common.{ℕ, List, ◌∷◌, Option, Outcome, ok, err, host}
use nusbip.Host.Info.{DeviceInfo, InterfaceDescriptor, Configuration}
use nusbip.Host.Effects.{
  Call, Effect, list_devices, open_device, active_configuration, claim_interface,
}

-- What such a call ends in: a value, or an error with its number.
pub data Reply {ℓ} (A : Type ℓ) : Type ℓ where
  got : A → Reply A
  refused : ℕ → Reply A

-- The answers of the library after the calls made before, and what it knows of its handles: the
-- descriptor of an interface, the vendor and the number of configurations of a device.
pub record Bus : Type 0 where
  pub listed : List Call → Reply (List DeviceInfo)
  pub opened : List Call → DeviceInfo → Reply ℕ
  pub configured : List Call → (device : ℕ) → Reply Configuration
  pub claimed : List Call → (device interface : ℕ) → Reply ℕ
  pub interface_descriptor : ℕ → Option InterfaceDescriptor
  pub vendor_of : ℕ → ℕ
  pub configurations : ℕ → ℕ

abbrev pub list_all : Bus → Effect (Reply (List DeviceInfo))
list_all bus calls = (ok (bus.listed calls), list_devices ∷ calls)

abbrev pub open_info : Bus → DeviceInfo → Effect (Reply ℕ)
open_info bus info calls = (ok (bus.opened calls info), open_device info ∷ calls)

abbrev pub configuration_of : Bus → ℕ → Effect (Reply Configuration)
configuration_of bus device calls =
    (ok (bus.configured calls device), active_configuration device ∷ calls)

abbrev pub claim : Bus → ℕ → ℕ → Effect (Reply ℕ)
claim bus device interface calls =
    (ok (bus.claimed calls device interface), claim_interface device interface ∷ calls)

abbrev pub or_fail {ℓ} : {A : Type ℓ} → Reply A → Outcome A
or_fail (got a) = ok a
or_fail (refused e) = err (host e)
