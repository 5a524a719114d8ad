-- ===== src/Linear/Whole.antt =====
-- The operations of src/lib.rs on its lists as whole steps, with what they return.
use nusbip.Common.{
  ℕ, List, [], ◌∷◌, ◌++◌, none, some, if◌then◌else◌, ok, err, no_available_device, device_in_use,
  device_not_found, ◌≡◌, refl,
}
use nusbip.Device.{UsbDevice}
use nusbip.Server.{Server, add_device, remove_device, occupy, release, cleanup}
use nusbip.Server.Devices.{has, take_device}
use nusbip.Linear.{Event, added, released, removed, occupied, cleaned, listed, with_device}

-- A whole operation, with what it returns, turns one server into another.
abbrev pub Performs : Event → Server → Server → Type 0
Performs (added d) s t = add_device d s ≡ t
Performs (released d) s t = release d s ≡ t
Performs (removed b r) s t = ((remove_device b s).0 ≡ r) × ((remove_device b s).2 ≡ t)
Performs (occupied b r) s t = occupy b s ≡ (r, t)
Performs cleaned s t = (cleanup s).1 ≡ t
Performs (listed ds) s t = (s.available ≡ ds) × (s ≡ t)

-- Whole operations, one after the other.
pub data Atomic (s : Server) : List Event → Server → Type 0 where
  none_yet : Atomic s [] s
  then_one :
      {es : List Event} {t u : Server} (e : Event)
      → Atomic s es t
      → Performs e t u
      → Atomic s (es ++ (e ∷ [])) u

-- What a turn brings to its end.
abbrev pub Done : List Event → Server → Server → Type 0
Done [] s t = s ≡ t
Done (e ∷ []) s t = Performs e s t
Done (e ∷ f ∷ es) s t = ⊥

abbrev pub lists_of : List UsbDevice → List UsbDevice → Server
lists_of a u = record { available = a; used = u }

pub server_eq : (a a' u u' : List UsbDevice) → a ≡ a' → u ≡ u' → lists_of a u ≡ lists_of a' u'
server_eq a a' u u' e f = rw (e, f) refl

pub remove_found :
    (b : List ℕ) (s : Server) (d : UsbDevice) (rest : List UsbDevice)
    → take_device b s.available ≡ some (d, rest)
    → Performs (removed b (ok tt)) s (lists_of rest s.used)
unfolding remove_device
remove_found b s d rest t = (rw (remove_device, t) refl, rw (remove_device, t) refl)

pub remove_missing :
    (b : List ℕ) (s : Server)
    → take_device b s.available ≡ none
    → Performs
        (removed b (if has b s.used then err (device_in_use b) else err (device_not_found b)))
        s
        s
unfolding remove_device
remove_missing b s t = (rw (remove_device, t) refl, rw (remove_device, t) refl)

pub occupy_found :
    (b : List ℕ) (s : Server) (d : UsbDevice) (rest : List UsbDevice)
    → take_device b s.available ≡ some (d, rest)
    → Performs (occupied b (ok d)) s (lists_of rest (with_device d s.used))
unfolding occupy
occupy_found b s d rest t = rw (occupy, t) refl

pub occupy_missing :
    (b : List ℕ) (s : Server)
    → take_device b s.available ≡ none
    → Performs (occupied b (err no_available_device)) s s
unfolding occupy
occupy_missing b s t = rw (occupy, t) refl
