-- ===== src/Server/Laws.antt =====
-- What each operation of src/lib.rs on the two lists does to the bus ids in them.
use nusbip.Common.{
  ℕ, List, [], ◌∷◌, ◌++◌, Option, none, some, true, false, not, if◌then◌else◌, bytes_eq,
  bytes_eq_refl, Outcome, ok, err, no_available_device, ◌≡◌, refl, ◌∙◌, subst, arith, Bool-cases,
  ◌⊎◌, inl, inr,
}
use nusbip.Device.{UsbDevice}
use nusbip.Server.Devices.{
  has, take_device, Distinct, Takes, take_device-Takes, has-append, has-without, bytes_cases,
  bytes_eq_symm, Distinct-append,
}
use nusbip.Server.{Server, occupy, release}

-- What occupying a bus id does, on a server with no bus id twice among the available devices.
abbrev pub Occupies : List ℕ → Server → Outcome UsbDevice × Server → Type 0
Occupies b s (r, s') =
    ((has b s.available ≡ false) × (r ≡ err no_available_device) × (s' ≡ s))
    ⊎ ((d : UsbDevice) × (has b s.available ≡ true)
        × (r ≡ ok d)
        × (d.bus_id ≡ b)
        × Distinct s'.available
        × ((x : List ℕ) → has x s'.available ≡ (if bytes_eq x b then false else has x s.available))
        × ((x : List ℕ) → has x s'.used ≡ (if bytes_eq x b then true else has x s.used)))

pub has_added :
    (d : UsbDevice) (ds : List UsbDevice) (x : List ℕ)
    → has x (if not (has d.bus_id ds) then ds ++ (d ∷ []) else ds)
      ≡ (if bytes_eq x d.bus_id then true else has x ds)
unfolding has
has_added d ds x = elim (bytes_cases x d.bus_id) [
  | inl f ↦
      rw (f, bytes_eq_refl d.bus_id)
        (elim (Bool-cases (has d.bus_id ds)) [
          | inl e ↦ rw (e, has) e
          | inr e ↦ rw e (has-append d.bus_id ds (d ∷ []) ∙ rw (e, bytes_eq_refl d.bus_id))
        ])
  | inr f ↦ rw f (elim (Bool-cases (has d.bus_id ds)) [
    | inl e ↦ rw e
    | inr e ↦ rw e (has-append x ds (d ∷ []) ∙ ground (arith, bytes_eq_symm x d.bus_id, f))
  ])
]

pub Distinct-added :
    (d : UsbDevice) (ds : List UsbDevice)
    → Distinct ds
    → Distinct (if not (has d.bus_id ds) then ds ++ (d ∷ []) else ds)
Distinct-added d ds dis = elim (Bool-cases (has d.bus_id ds)) [
  | inl e ↦ rw e dis
  | inr e ↦ rw e (Distinct-append ds d e dis)
]

-- Releasing a device makes its bus id available and no longer used, and leaves all others alone.
pub release_lem :
    (d : UsbDevice) (s : Server) (x : List ℕ)
    → (has x (release d s).available ≡ (if bytes_eq x d.bus_id then true else has x s.available))
      × (has x (release d s).used ≡ (if bytes_eq x d.bus_id then false else has x s.used))
unfolding release
release_lem d s x = (has_added d s.available x, has-without d.bus_id x s.used)

occupied :
    (b : List ℕ) (s : Server) (d : UsbDevice) (rest : List UsbDevice)
    → Takes b s.available (some (d, rest))
    → Occupies b s (
      ok d,
      record {
        available = rest;
        used = if not (has d.bus_id s.used) then s.used ++ (d ∷ []) else s.used;
      },
    )
occupied b s d rest (same, found, others, dis) = inr (
  d,
  found,
  refl,
  same,
  dis,
  others,
  λ x.
      subst
        (λ y.
          has x (if not (has d.bus_id s.used) then s.used ++ (d ∷ []) else s.used)
          ≡ (if bytes_eq x y then true else has x s.used))
        same (has_added d s.used x),
)

occupied_cases :
    (b : List ℕ) (s : Server) (o : Option (UsbDevice × List UsbDevice))
    → Takes b s.available o
    → Occupies b s (elim o [
      | none ↦ (err no_available_device, s)
      | some (d, rest) ↦ (
        ok d,
        record {
          available = rest;
          used = if not (has d.bus_id s.used) then s.used ++ (d ∷ []) else s.used;
        },
      )
    ])
occupied_cases b s none t = inl (t, refl, refl)
occupied_cases b s (some (d, rest)) t = occupied b s d rest t

-- Occupying a bus id fails, and changes nothing, exactly when it is not available. Otherwise it
-- gives a device of that bus id, which is then used and no longer available; the other bus ids stay
-- where they were, and none is twice among the available devices.
pub occupy-Occupies : (b : List ℕ) (s : Server) → Distinct s.available → Occupies b s (occupy b s)
unfolding occupy
occupy-Occupies b s dis =
    occupied_cases b s (take_device b s.available) (take_device-Takes b s.available dis)
