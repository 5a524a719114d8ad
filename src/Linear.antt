-- ===== src/Linear.antt =====
-- The operations of `UsbIpServer` in src/lib.rs on its two lists, lock by lock: the turns of tasks that
-- share the lists. A write lock is kept until the operation returns. A read lock is taken and given
-- up in one turn, since what it guards is only looked at.
pub mod Relies
pub mod Whole
pub mod Follows
pub mod Atomic
pub mod Handed
use nusbip.Common.{
  ℕ, List, [], ◌∷◌, ◌++◌, Option, none, some, Bool, not, ◌==◌, if◌then◌else◌, Outcome, ok, err,
  no_available_device, device_in_use, device_not_found, ◌≡◌,
}
use nusbip.Device.{UsbDevice}
use nusbip.Server.{Server, cleanup}
use nusbip.Server.Devices.{has, take_device, without}
use nusbip.Server.Refines.{ServerAction, adds, releases, removes, occupies, cleans}

-- Who has a lock for writing.
pub data Owner : Type 0 where
  free : Owner
  owned_by : ℕ → Owner

-- Where a task stands in an operation: it waits for its first lock, has that, or has both. `took` is
-- `occupy` after `ad.remove(i)`, with the bus id, the device and the list before, without and with
-- the lock of the used devices; `pushed` is `release` after `ad.push(device)`, with the device,
-- `new_ud` and the list before.
pub data Phase : Type 0 where
  idle : Phase
  waits first second : ServerAction → Phase
  took took_second : List ℕ → UsbDevice → List UsbDevice → Phase
  pushed : UsbDevice → (new_ud before : List UsbDevice) → Phase

pub record Machine : Type 0 where
  pub server : Server
  pub available_lock : Owner
  pub used_lock : Owner
  pub phase : ℕ → Phase

-- An operation that has come to its end, with what it returns; `listed` is the list that is sent.
pub data Event : Type 0 where
  added released : UsbDevice → Event
  removed : List ℕ → Outcome (Unit {0}) → Event
  occupied : List ℕ → Outcome UsbDevice → Event
  cleaned : Event
  listed : List UsbDevice → Event

-- `push`, unless a device of its bus id is there.
abbrev pub with_device : UsbDevice → List UsbDevice → List UsbDevice
with_device d ds = if not (has d.bus_id ds) then ds ++ (d ∷ []) else ds

abbrev pub set_phase : ℕ → Phase → (ℕ → Phase) → ℕ → Phase
set_phase i p phase j = if j == i then p else phase j

-- A task moves on, with no change to the lists.
abbrev pub goes : ℕ → Phase → Machine → Machine
goes i p m = record m { phase = set_phase i p m.phase }

abbrev pub locks_available : ℕ → Machine → Machine
locks_available i m = record m { available_lock = owned_by i }

abbrev pub locks_used : ℕ → Machine → Machine
locks_used i m = record m { used_lock = owned_by i }

-- The lists change.
abbrev pub has_lists : (available used : List UsbDevice) → Machine → Machine
has_lists available used m = record m { server = record { available = available; used = used } }

-- An operation returns and unlocks what it has: the available devices, or both.
abbrev pub unlocks_available : Machine → Machine
unlocks_available m = record m { available_lock = free }

abbrev pub unlocks_both : Machine → Machine
unlocks_both m = record m { available_lock = free; used_lock = free }

-- The operations that lock the available devices first, and the two that lock the used ones first.
abbrev pub StartsAvailable : ServerAction → Type 0
StartsAvailable (releases d) = ⊥
StartsAvailable cleans = ⊥
StartsAvailable _ = Unit

abbrev pub StartsUsed : ServerAction → Type 0
StartsUsed (releases d) = Unit
StartsUsed cleans = Unit
StartsUsed _ = ⊥

-- A turn of the task `i`, and the operation that it brings to its end, if any.
pub data Turn (i : ℕ) (m : Machine) : List Event → Machine → Type 0 where
  begins : (a : ServerAction) → m.phase i ≡ idle → Turn i m [] (goes i (waits a) m)
  first_available :
      (a : ServerAction)
      → StartsAvailable a
      → m.phase i ≡ waits a
      → m.available_lock ≡ free
      → Turn i m [] (goes i (first a) (locks_available i m))
  first_used :
      (a : ServerAction)
      → StartsUsed a
      → m.phase i ≡ waits a
      → m.used_lock ≡ free
      → Turn i m [] (goes i (first a) (locks_used i m))
  second_available :
      (a : ServerAction)
      → StartsUsed a
      → m.phase i ≡ first a
      → m.available_lock ≡ free
      → Turn i m [] (goes i (second a) (locks_available i m))
  add_ends :
      (d : UsbDevice)
      → m.phase i ≡ first (adds d)
      → Turn i m (added d ∷ []) (
          goes i idle
            (unlocks_available (has_lists (m.server.available ++ (d ∷ [])) m.server.used m)))
  remove_ends :
      (b : List ℕ) (d : UsbDevice) (rest : List UsbDevice)
      → m.phase i ≡ first (removes b)
      → take_device b m.server.available ≡ some (d, rest)
      → Turn i m
          (removed b (ok tt) ∷ [])
          (goes i idle (unlocks_available (has_lists rest m.server.used m)))
  remove_fails :
      (b : List ℕ)
      → m.phase i ≡ first (removes b)
      → take_device b m.server.available ≡ none
      → m.used_lock ≡ free
      → Turn i m
          (removed b
              (if has b m.server.used then err (device_in_use b) else err (device_not_found b))
            ∷ [])
          (goes i idle (unlocks_available m))
  occupy_fails :
      (b : List ℕ)
      → m.phase i ≡ first (occupies b)
      → take_device b m.server.available ≡ none
      → Turn i m (occupied b (err no_available_device) ∷ []) (goes i idle (unlocks_available m))
  occupy_takes :
      (b : List ℕ) (d : UsbDevice) (rest : List UsbDevice)
      → m.phase i ≡ first (occupies b)
      → take_device b m.server.available ≡ some (d, rest)
      → Turn i m [] (goes i (took b d m.server.available) (has_lists rest m.server.used m))
  occupy_locks :
      (b : List ℕ) (d : UsbDevice) (before : List UsbDevice)
      → m.phase i ≡ took b d before
      → m.used_lock ≡ free
      → Turn i m [] (goes i (took_second b d before) (locks_used i m))
  occupy_ends :
      (b : List ℕ) (d : UsbDevice) (before : List UsbDevice)
      → m.phase i ≡ took_second b d before
      → Turn i m (occupied b (ok d) ∷ []) (
          goes i idle (unlocks_both (has_lists m.server.available (with_device d m.server.used) m)))
  release_pushes :
      (d : UsbDevice)
      → m.phase i ≡ second (releases d)
      → Turn i m [] (
          goes i
            (pushed d (without d.bus_id m.server.used) m.server.available)
            (has_lists (with_device d m.server.available) m.server.used m))
  release_ends :
      (d : UsbDevice) (new_ud before : List UsbDevice)
      → m.phase i ≡ pushed d new_ud before
      → Turn i m
          (released d ∷ [])
          (goes i idle (unlocks_both (has_lists m.server.available new_ud m)))
  cleanup_ends :
      m.phase i ≡ second cleans
      → Turn i m (cleaned ∷ []) (goes i idle (unlocks_both (has_lists [] [] m)))
  lists : m.phase i ≡ idle → m.available_lock ≡ free → Turn i m (listed m.server.available ∷ []) m

-- Turns of any tasks in any order, and the operations that came to their ends, in that order.
pub data Turns (m : Machine) : List Event → Machine → Type 0 where
  start : Turns m [] m
  next :
      {es fs : List Event} {n o : Machine} {i : ℕ}
      → Turns m es n
      → Turn i n fs o
      → Turns m (es ++ fs) o
