-- ===== src/Tests/Linear.antt =====
-- The turns of two tasks on the lists of src/lib.rs: one occupies the only disk, and the other, which is
-- after the same, finds none in the end.
use nusbip.Common.{ℕ, ◌⊎◌, List, [], ◌∷◌, ok, err, no_available_device, bytes_eq, ◌≡◌, refl}
use nusbip.Device.{UsbDevice}
use nusbip.Server.{Server}
use nusbip.Server.Devices.{has, take_device}
use nusbip.Server.Refines.{occupies}
use nusbip.Linear.{
  owned_by, Machine, Turns, start, next, begins, first_available, occupy_takes, occupy_locks,
  occupy_ends, occupy_fails, occupied, free, Event,
}
use nusbip.Linear.Whole.{Atomic}
use nusbip.Linear.Atomic.{quiet, turns_lem}
use nusbip.Linear.Handed.{handed, count, brought, handed_lem}
use nusbip.Common.{◌≤◌, ◌+◌}
use nusbip.Tests.Data.{device_named}

abbrev disk : UsbDevice
disk = device_named (49 ∷ [])

abbrev one_disk : Server
one_disk = record { available = disk ∷ []; used = [] }

abbrev results : List Event
results = occupied (49 ∷ []) (ok disk) ∷ occupied (49 ∷ []) (err no_available_device) ∷ []

-- Both begin, the task 1 gets the first lock, and the task 2 only after that.
turns : (m : Machine) × Turns (quiet one_disk) results m × (m.available_lock ≡ free)
unfolding take_device has bytes_eq
turns = (
  _,
  next {i = 2}
      (next {i = 2}
        (next {i = 1}
          (next {i = 1}
            (next {i = 1}
              (next {i = 1}
                (next {i = 2} (next {i = 1} (start) (begins (occupies (49 ∷ [])) refl))
                  (begins (occupies (49 ∷ [])) refl))
                (first_available (occupies (49 ∷ [])) tt refl refl))
              (occupy_takes (49 ∷ []) disk [] refl refl))
            (occupy_locks (49 ∷ []) disk (disk ∷ []) refl refl))
          (occupy_ends (49 ∷ []) disk (disk ∷ []) refl))
        (first_available (occupies (49 ∷ [])) tt refl refl))
      (occupy_fails (49 ∷ []) refl refl),
  refl,
)

turns_example :
    (t : Server) × Atomic one_disk results t
    × (turns.0.server.used ≡ t.used)
    × ((turns.0.server.available ≡ t.available) ⊎ ((i : ℕ) × (turns.0.available_lock ≡ owned_by i)))
turns_example = turns_lem one_disk turns.0 results turns.1

handed_example :
    handed (49 ∷ []) results ≤ count (49 ∷ []) one_disk.available + brought (49 ∷ []) results
handed_example = handed_lem one_disk turns.0 results (49 ∷ []) turns.1
