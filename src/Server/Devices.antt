-- ===== src/Server/Devices.antt =====
-- The searches of src/lib.rs in a list of devices, by bus id.
use nusbip.Common.{
  ℕ, List, [], ◌∷◌, ◌++◌, Option, none, some, Bool, true, false, ◌||◌, if◌then◌else◌, bytes_eq,
  bytes_eq_refl, bytes_eq→eq, ◌≡◌, refl, sym, ◌∙◌, subst, arith, Bool-cases, ◌⊎◌, inl, inr,
}
use mathlib.Core.Bool.{false≢true}
use nusbip.Device.{UsbDevice}

-- `iter().any(|d| d.bus_id == bus_id)`.
unfoldable pub has : List ℕ → List UsbDevice → Bool
has bus_id [] = false
has bus_id (d ∷ ds) = bytes_eq d.bus_id bus_id || has bus_id ds

-- `iter().position(|d| d.bus_id == bus_id)` and `remove(i)`: the first device of the bus id, and
-- the list without it.
unfoldable pub take_device : List ℕ → List UsbDevice → Option (UsbDevice × List UsbDevice)
take_device bus_id [] = none
take_device bus_id (d ∷ ds) =
    if bytes_eq d.bus_id bus_id
    then some (d, ds)
    else elim (take_device bus_id ds) [ none ↦ none | some (e, rest) ↦ some (e, d ∷ rest) ]

-- `into_iter().filter(|d| d.bus_id != bus_id)`.
unfoldable pub without : List ℕ → List UsbDevice → List UsbDevice
without bus_id [] = []
without bus_id (d ∷ ds) =
    if bytes_eq d.bus_id bus_id then without bus_id ds else d ∷ without bus_id ds

-- No bus id twice.
abbrev pub Distinct : List UsbDevice → Type 0
Distinct [] = Unit
Distinct (d ∷ ds) = (has d.bus_id ds ≡ false) × Distinct ds

pub bytes_cases : (x y : List ℕ) → (x ≡ y) ⊎ (bytes_eq x y ≡ false)
bytes_cases x y = elim (Bool-cases (bytes_eq x y)) [
  | inl e ↦ inl (bytes_eq→eq x y e)
  | inr e ↦ inr e
]

pub bytes_eq_symm : (x y : List ℕ) → bytes_eq x y ≡ bytes_eq y x
bytes_eq_symm x y = elim (bytes_cases x y) [
  | inl e ↦ rw e
  | inr e ↦ elim (bytes_cases y x) [ inl f ↦ rw f | inr f ↦ e ∙ sym f ]
]

pub has-append : (x : List ℕ) (ds es : List UsbDevice) → has x (ds ++ es) ≡ (has x ds || has x es)
unfolding has
has-append x [] es = refl
has-append x (d ∷ ds) es = ground (arith, has-append x ds es)

pub has-without :
    (b x : List ℕ) (ds : List UsbDevice)
    → has x (without b ds) ≡ (if bytes_eq x b then false else has x ds)
unfolding has without
has-without b x [] = ground arith
has-without b x (d ∷ ds) = elim (bytes_cases x b) [
  | inl e ↦ rw e (ground (arith, has-without b b ds, bytes_eq_refl b))
  | inr e ↦ elim (bytes_cases d.bus_id b) [
    | inl f ↦ rw f (ground (arith, has-without b x ds, bytes_eq_refl b, bytes_eq_symm x b))
    | inr f ↦ ground (arith, has-without b x ds)
  ]
]

-- What taking a device from a list with no bus id twice gives: nothing if there is none of the bus
-- id, and otherwise a device of it, with a rest that has the other bus ids of the list.
abbrev pub Takes : List ℕ → List UsbDevice → Option (UsbDevice × List UsbDevice) → Type 0
Takes b ds none = has b ds ≡ false
Takes b ds (some (d, rest)) =
    (d.bus_id ≡ b)
    × (has b ds ≡ true)
    × ((x : List ℕ) → has x rest ≡ (if bytes_eq x b then false else has x ds))
    × Distinct rest

Takes-first :
    (b : List ℕ) (c : UsbDevice) (ds : List UsbDevice)
    → c.bus_id ≡ b
    → Distinct (c ∷ ds)
    → Takes b (c ∷ ds) (some (c, ds))
unfolding has
Takes-first b c ds e (new, dis) = (
  e,
  rw (e, bytes_eq_refl b),
  λ x. elim (bytes_cases x b) [
    | inl f ↦ rw (f, bytes_eq_refl b) (subst (λ y. has y ds ≡ false) e new)
    | inr f ↦ rw (f, e, bytes_eq_symm b x, f)
  ],
  dis,
)

Takes-later :
    (b : List ℕ) (c : UsbDevice) (ds : List UsbDevice) (o : Option (UsbDevice × List UsbDevice))
    → bytes_eq c.bus_id b ≡ false
    → Distinct (c ∷ ds)
    → Takes b ds o
    → Takes b (c ∷ ds) (elim o [ none ↦ none | some (e, rest) ↦ some (e, c ∷ rest) ])
unfolding has
Takes-later b c ds none ne dis t = rw ne t
Takes-later b c ds (some (d, rest)) ne (new, dis) (same, found, others, dis') = (
  same,
  rw ne found,
  λ x. elim (bytes_cases x b) [
    | inl f ↦
        subst (λ y. has y (c ∷ rest) ≡ (if bytes_eq y b then false else has y (c ∷ ds))) (sym f)
          (rw (bytes_eq_refl b, ne) (others b ∙ rw (bytes_eq_refl b)))
    | inr f ↦ rw (others x, f)
  ],
  (others c.bus_id ∙ rw ne new, dis'),
)

pub take_device-Takes :
    (b : List ℕ) (ds : List UsbDevice) → Distinct ds → Takes b ds (take_device b ds)
unfolding has take_device
take_device-Takes b [] dis = refl
take_device-Takes b (c ∷ ds) dis = elim (bytes_cases c.bus_id b) [
  | inl e ↦
      rw (subst (λ y. bytes_eq c.bus_id y ≡ true) e (bytes_eq_refl c.bus_id))
        (Takes-first b c ds e dis)
  | inr e ↦ rw e (Takes-later b c ds (take_device b ds) e dis (take_device-Takes b ds dis.1))
]

pub Distinct-without : (b : List ℕ) (ds : List UsbDevice) → Distinct ds → Distinct (without b ds)
unfolding without
Distinct-without b [] dis = tt
Distinct-without b (d ∷ ds) (new, dis) = elim (Bool-cases (bytes_eq d.bus_id b)) [
  | inl e ↦ rw e (Distinct-without b ds dis)
  | inr e ↦ rw e (has-without b d.bus_id ds ∙ rw e new, Distinct-without b ds dis)
]

pub Distinct-append :
    (ds : List UsbDevice) (d : UsbDevice)
    → has d.bus_id ds ≡ false
    → Distinct ds
    → Distinct (ds ++ (d ∷ []))
unfolding has
Distinct-append [] d new dis = (refl, tt)
Distinct-append (c ∷ ds) d new (newc, dis) = elim (Bool-cases (bytes_eq c.bus_id d.bus_id)) [
  | inl e ↦ absurd (clash e)
  | inr e ↦ (
    has-append c.bus_id ds (d ∷ []) ∙ rw (newc, bytes_eq_symm d.bus_id c.bus_id, e),
    Distinct-append ds d (rw e at new) dis,
  )
]
  where
    clash : bytes_eq c.bus_id d.bus_id ≡ true → ⊥
    clash e = false≢true (sym (rw e at new))
