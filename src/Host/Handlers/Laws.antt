-- ===== src/Host/Handlers/Laws.antt =====
-- The handler of a device of src/host.rs under its lock, and against the function of that file.
use nusbip.Common.{
  ℕ, ◌/◌, ◌^◌, List, [], ◌∷◌, Bool, true, bit_and, length, replicate, panic, Bool-cases, inl, inr,
  ◌≡◌, refl, arith,
}
use nusbip.Setup.{SetupPacket}
use nusbip.Host.Control.{control_type}
use nusbip.Host.Effects.{Nusb, Call}
use nusbip.Host.Bus.{Bus}
use nusbip.Host.{control_transfer, handle_urb_for_device}
use nusbip.Host.Handlers.{
  device_urb_locked, DeviceHandler, with_lock, call_method, call_methods, Method, handles_urb,
  releases_claim, resets, sets_configuration,
}

module _ (nusb : Nusb) (bus : Bus) (debug : Bool) where
  poisoned_method :
      (m : Method) (h : DeviceHandler) (calls : List Call)
      → h.poisoned ≡ true
      → call_method nusb bus debug m h calls ≡ ((panic, h), calls)
  unfolding call_method with_lock
  poisoned_method (handles_urb setup req) h calls p = rw p refl
  poisoned_method releases_claim h calls p = rw p refl
  poisoned_method resets h calls p = rw p refl
  poisoned_method (sets_configuration setup) h calls p = rw p refl

  poisoned_methods :
      (ms : List Method) (h : DeviceHandler) (calls : List Call)
      → h.poisoned ≡ true
      → call_methods nusb bus debug ms h calls ≡ ((replicate (length ms) panic, h), calls)
  unfolding call_methods
  poisoned_methods [] h calls p = refl
  poisoned_methods (m ∷ ms) h calls p =
      rw (poisoned_method m h calls p, poisoned_methods ms h calls p) refl

  reserved_panics :
      (setup : SetupPacket) (req : List ℕ) (device : ℕ) (calls : List Call)
      → bit_and (setup.request_type / 2 ^ 5) 3 ≡ 3
      → device_urb_locked nusb setup req device calls ≡ (panic, calls)
  unfolding device_urb_locked control_type
  reserved_panics setup req device calls e = ground arith

  reserved_poisons :
      (setup : SetupPacket) (req : List ℕ) (h : DeviceHandler) (calls : List Call)
      → bit_and (setup.request_type / 2 ^ 5) 3 ≡ 3
      → call_method nusb bus debug (handles_urb setup req) h calls
        ≡ ((panic, record h { poisoned = true }), calls)
  unfolding call_method with_lock
  reserved_poisons setup req h calls e = elim (Bool-cases h.poisoned) [
    | inl p ↦ rw p refl
    | inr p ↦ rw (p, reserved_panics setup req h.handle calls e) refl
  ]

-- One request of the reserved type disables the handler of a device for good: it panics under the lock,
-- and so does every method called after it, of which none makes a call.
pub reserved_disables :
    (nusb : Nusb) (bus : Bus) (debug : Bool) (setup : SetupPacket) (req : List ℕ) (ms : List Method)
    (h : DeviceHandler) (calls : List Call)
    → bit_and (setup.request_type / 2 ^ 5) 3 ≡ 3
    → call_methods nusb bus debug (handles_urb setup req ∷ ms) h calls ≡ (
      (replicate (length (handles_urb setup req ∷ ms)) panic, record h { poisoned = true }),
      calls,
    )
unfolding call_methods
reserved_disables nusb bus debug setup req ms h calls e =
    rw
      (
        reserved_poisons nusb bus debug setup req h calls e,
        poisoned_methods nusb bus debug ms (record h { poisoned = true }) calls refl,
      )
      refl

-- A request to the handler of a device makes, under the lock, the same calls with the same outcome as
-- `handle_urb_for_device`.
device_handler-eq :
    (nusb : Nusb) (debug : Bool) (setup : SetupPacket) (req : List ℕ) (device : ℕ)
    (calls : List Call)
    → device_urb_locked nusb setup req device calls
      ≡ handle_urb_for_device nusb debug device setup req calls
unfolding device_urb_locked handle_urb_for_device control_transfer
device_handler-eq nusb debug setup req device calls = ground arith
