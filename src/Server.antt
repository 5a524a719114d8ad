-- ===== src/Server.antt =====
-- src/lib.rs: the state of a server and its operations on the two lists of devices.
-- A lock is held for the whole of an operation, so each is one step on the state.
pub mod Devices
pub mod Utf8
pub mod Import
pub mod Keeps
pub mod Laws
pub mod Refines
pub mod Submit
pub mod Replies
pub mod Bounds
pub mod Empty
use nusbip.Common.{
  ℕ, List, [], ◌∷◌, ◌++◌, Option, none, some, Bool, true, false, not, if◌then◌else◌, bytes_eq,
  Outcome, ok, err, no_available_device, device_in_use, device_not_found,
}
use nusbip.Device.{UsbDevice}
use Devices.{has, take_device, without}

pub record Server : Type 0 where
  pub available : List UsbDevice
  pub used : List UsbDevice

-- `UsbIpServer::new_simulated`.
unfoldable pub new_simulated : List UsbDevice → Server
new_simulated devices = record { available = devices; used = [] }

unfoldable pub add_device : UsbDevice → Server → Server
add_device d s = record s { available = s.available ++ (d ∷ []) }

-- The handle of a device, if it has one: what `release_claim` is called with.
unfoldable pub handle_of : UsbDevice → List ℕ
handle_of d = elim d.device_handler [ none ↦ [] | some h ↦ h ∷ [] ]

unfoldable pub handles : List UsbDevice → List ℕ
unfolding handle_of
handles [] = []
handles (d ∷ ds) = handle_of d ++ handles ds

-- The result, the handles whose claims are released, and the new state.
unfoldable pub remove_device : List ℕ → Server → Outcome (Unit {0}) × List ℕ × Server
unfolding handle_of
remove_device bus_id s = elim (take_device bus_id s.available) [
  | some (d, rest) ↦ (ok tt, handle_of d, record s { available = rest })
  | none ↦ (
    if has bus_id s.used then err (device_in_use bus_id) else err (device_not_found bus_id),
    [],
    s,
  )
]

unfoldable pub occupy : List ℕ → Server → Outcome UsbDevice × Server
occupy bus_id s = elim (take_device bus_id s.available) [
  | none ↦ (err no_available_device, s)
  | some (d, rest) ↦ (
    ok d,
    record {
      available = rest;
      used = if not (has d.bus_id s.used) then s.used ++ (d ∷ []) else s.used;
    },
  )
]

unfoldable pub release : UsbDevice → Server → Server
release d s = record {
  available = if not (has d.bus_id s.available) then s.available ++ (d ∷ []) else s.available;
  used = without d.bus_id s.used;
}

-- The loop of `cleanup`: each used device goes back, unless one of its bus id is there.
unfoldable pub take_back : List UsbDevice → List UsbDevice → List UsbDevice
take_back available [] = available
take_back available (d ∷ ds) =
    take_back (if not (has d.bus_id available) then available ++ (d ∷ []) else available) ds

-- `cleanup` on Linux: every claim is released, and both lists are emptied.
unfoldable pub cleanup : Server → List ℕ × Server
unfolding take_back handles
cleanup s = (handles (take_back s.available s.used), record { available = []; used = [] })
