-- ===== src/Linear/Handed.antt =====
-- How often the operations of src/lib.rs hand out a bus id, lock by lock.
use nusbip.Common.{
  ℕ, ◌+◌, ◌≤◌, List, [], ◌∷◌, ◌++◌, Option, none, some, Bool, not, if◌then◌else◌, if_both, bytes_eq,
  Outcome, ok, err, no_available_device, device_in_use, device_not_found, arith, ◌≡◌, refl, subst,
}
use nusbip.Device.{UsbDevice}
use nusbip.Server.{Server, handle_of, add_device, remove_device, occupy, release, cleanup}
use nusbip.Server.Devices.{has, take_device}
use nusbip.Linear.{Machine, Event, added, released, removed, occupied, cleaned, listed, Turns}
use nusbip.Linear.Whole.{Performs, Atomic, none_yet, then_one}
use nusbip.Linear.Atomic.{quiet, turns_lem}

abbrev one : Bool → ℕ
one b = if b then 1 else 0

-- The devices of a bus id in a list.
abbrev pub count : List ℕ → List UsbDevice → ℕ
count b [] = 0
count b (d ∷ ds) = one (bytes_eq d.bus_id b) + count b ds

-- Operations that hand out a device of the bus id, and those that bring one.
abbrev pub handed_by : List ℕ → Event → ℕ
handed_by b (occupied x (ok d)) = one (bytes_eq d.bus_id b)
handed_by b _ = 0

abbrev pub brought_by : List ℕ → Event → ℕ
brought_by b (added d) = one (bytes_eq d.bus_id b)
brought_by b (released d) = one (bytes_eq d.bus_id b)
brought_by b _ = 0

abbrev pub handed : List ℕ → List Event → ℕ
handed b [] = 0
handed b (e ∷ es) = handed_by b e + handed b es

abbrev pub brought : List ℕ → List Event → ℕ
brought b [] = 0
brought b (e ∷ es) = brought_by b e + brought b es

handed-append :
    (b : List ℕ) (es : List Event) (e : Event)
    → handed b (es ++ (e ∷ [])) ≡ handed b es + handed_by b e
handed-append b [] e = omega arith
handed-append b (x ∷ es) e = omega (arith, handed-append b es e)

brought-append :
    (b : List ℕ) (es : List Event) (e : Event)
    → brought b (es ++ (e ∷ [])) ≡ brought b es + brought_by b e
brought-append b [] e = omega arith
brought-append b (x ∷ es) e = omega (arith, brought-append b es e)

count-append :
    (b : List ℕ) (ds : List UsbDevice) (d : UsbDevice)
    → count b (ds ++ (d ∷ [])) ≡ count b ds + one (bytes_eq d.bus_id b)
count-append b [] d = omega arith
count-append b (x ∷ ds) d = omega (arith, count-append b ds d)

-- The list without the device that is taken.
abbrev CountsTaken : List ℕ → List UsbDevice → Option (UsbDevice × List UsbDevice) → Type 0
CountsTaken b ds none = Unit
CountsTaken b ds (some (d, rest)) = count b ds ≡ one (bytes_eq d.bus_id b) + count b rest

later-CountsTaken :
    (b : List ℕ) (c : UsbDevice) (ds : List UsbDevice) (o : Option (UsbDevice × List UsbDevice))
    → CountsTaken b ds o
    → CountsTaken b (c ∷ ds) (elim o [ none ↦ none | some (e, rest) ↦ some (e, c ∷ rest) ])
later-CountsTaken b c ds none h = tt
later-CountsTaken b c ds (some (d, rest)) h = omega (arith, h)

take_device-CountsTaken : (b x : List ℕ) (ds : List UsbDevice) → CountsTaken b ds (take_device x ds)
unfolding take_device
take_device-CountsTaken b x [] = tt
take_device-CountsTaken b x (d ∷ ds) =
    if_both (CountsTaken b (d ∷ ds)) (bytes_eq d.bus_id x) refl
      (later-CountsTaken b d ds (take_device x ds) (take_device-CountsTaken b x ds))

module _ (b : List ℕ) (s : Server) where
  -- No more is handed out and left than there was and is brought.
  abbrev Balanced : Event → Server → Type 0
  Balanced e t = handed_by b e + count b t.available ≤ count b s.available + brought_by b e

  added-Balanced : (d : UsbDevice) → Balanced (added d) (add_device d s)
  unfolding add_device
  added-Balanced d = omega (arith, count-append b s.available d)

  released-Balanced : (d : UsbDevice) → Balanced (released d) (release d s)
  unfolding release
  released-Balanced d =
      if_both
        (λ (ds : List UsbDevice). 0 + count b ds ≤ count b s.available + one (bytes_eq d.bus_id b))
        (not (has d.bus_id s.available)) (omega (arith, count-append b s.available d)) (omega arith)

  removed-Balanced :
      (x : List ℕ) (r : Outcome (Unit {0})) → Balanced (removed x r) (remove_device x s).2
  unfolding remove_device
  removed-Balanced x r =
      by_taken (take_device x s.available) (take_device-CountsTaken b x s.available)
    where
      by_taken :
          (o : Option (UsbDevice × List UsbDevice))
          → CountsTaken b s.available o
          → 0
              + count b
                  (elim o as (λ w. Outcome (Unit {0}) × List ℕ × Server) [
                    | some (d, rest) ↦ (ok tt, handle_of d, record s { available = rest })
                    | none ↦ (
                      if has x s.used then err (device_in_use x) else err (device_not_found x),
                      [],
                      s,
                    )
                  ]).2.available
            ≤ count b s.available + 0
      by_taken none h = omega arith
      by_taken (some (d, rest)) h = omega (arith, h)

  occupied-Balanced : (x : List ℕ) → Balanced (occupied x (occupy x s).0) (occupy x s).1
  unfolding occupy
  occupied-Balanced x =
      by_taken (take_device x s.available) (take_device-CountsTaken b x s.available)
    where
      by_taken :
          (o : Option (UsbDevice × List UsbDevice))
          → CountsTaken b s.available o
          → (let p : Outcome UsbDevice × Server = elim o as (λ w. Outcome UsbDevice × Server) [
            | none ↦ (err no_available_device, s)
            | some (d, rest) ↦ (
              ok d,
              record {
                available = rest;
                used = if not (has d.bus_id s.used) then s.used ++ (d ∷ []) else s.used;
              },
            )
          ] in
              Balanced (occupied x p.0) p.1)
      by_taken none h = omega arith
      by_taken (some (d, rest)) h = omega (arith, h)

  performed-Balanced : (e : Event) (t : Server) → Performs e s t → Balanced e t
  unfolding cleanup
  performed-Balanced (added d) t p = subst (Balanced (added d)) p (added-Balanced d)
  performed-Balanced (released d) t p = subst (Balanced (released d)) p (released-Balanced d)
  performed-Balanced (removed x r) t (e, p) =
      subst (Balanced (removed x r)) p (removed-Balanced x r)
  performed-Balanced (occupied x r) t p =
      subst (λ (q : Outcome UsbDevice × Server). Balanced (occupied x q.0) q.1) p
        (occupied-Balanced x)
  performed-Balanced cleaned t p = subst (Balanced cleaned) p (omega arith)
  performed-Balanced (listed ds) t (e, p) = subst (Balanced (listed ds)) p (omega arith)

run-Balanced :
    (b : List ℕ) (s t : Server) (es : List Event)
    → Atomic s es t
    → handed b es + count b t.available ≤ count b s.available + brought b es
run-Balanced b s t _ none_yet = omega arith
run-Balanced b s t _ (then_one {es} {t = u} e r p) = omega (
  arith,
  run-Balanced b s u es r,
  performed-Balanced b u e t p,
  handed-append b es e,
  brought-append b es e,
)

-- Whatever turns tasks take at once, in any order, from a state with no operation on the way: a bus id is
-- handed out no more often than devices of it were available then, were added, and were given back.
pub handed_lem :
    (s : Server) (m : Machine) (es : List Event) (b : List ℕ)
    → Turns (quiet s) es m
    → handed b es ≤ count b s.available + brought b es
handed_lem s m es b r =
    let (t, done, used, rest) = turns_lem s m es r in omega (arith, run-Balanced b s t es done)
