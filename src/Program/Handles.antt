-- ===== src/Program/Handles.antt =====
-- Devices of src/lib.rs in a list, with the handles that src/main.rs releases.
use nusbip.Common.{
  Among, ℕ, List, [], ◌∷◌, ◌++◌, Option, none, some, Bool, true, false, ◌||◌, ◌==◌, ==_iff,
  bytes_eq, bytes_eq→eq, bytes_eq_refl, All, ◌≡◌, refl, sym, ap, subst, ◌∙◌, arith, Bool-cases, ◌⊎◌,
  inl, inr,
}
use mathlib.Core.Bool.{false≢true}
use nusbip.Device.{UsbDevice}
use nusbip.Server.{handle_of, handles}
use nusbip.Server.Devices.{has, Distinct}

Among-left : {A : Type 0} (a : A) (xs ys : List A) → Among a xs → Among a (xs ++ ys)
Among-left a [] ys p = absurd p
Among-left a (x ∷ xs) ys (inl e) = inl e
Among-left a (x ∷ xs) ys (inr p) = inr (Among-left a xs ys p)

Among-right : {A : Type 0} (a : A) (xs ys : List A) → Among a ys → Among a (xs ++ ys)
Among-right a [] ys p = p
Among-right a (x ∷ xs) ys p = inr (Among-right a xs ys p)

Among-append : {A : Type 0} (a : A) (xs ys : List A) → Among a (xs ++ ys) → Among a xs ⊎ Among a ys
Among-append a [] ys p = inr p
Among-append a (x ∷ xs) ys (inl e) = inl (inl e)
Among-append a (x ∷ xs) ys (inr p) = elim (Among-append a xs ys p) [
  | inl q ↦ inl (inr q)
  | inr q ↦ inr q
]

pub All-Among :
    (ds : List UsbDevice) (xs : List UsbDevice)
    → ((d : UsbDevice) → Among d xs → Among d ds)
    → All (λ (d : UsbDevice). Among d ds) xs
All-Among ds [] f = tt
All-Among ds (x ∷ xs) f = (f x (inl refl), All-Among ds xs (λ d p. f d (inr p)))

pub get_All :
    (P : UsbDevice → Type 0) (d : UsbDevice) (ds : List UsbDevice) → All P ds → Among d ds → P d
get_All P d [] p q = absurd q
get_All P d (x ∷ xs) (h, p) (inl e) = subst P (sym e) h
get_All P d (x ∷ xs) (h, p) (inr q) = get_All P d xs p q

pub or_right : (x y : Bool) → y ≡ true → (x || y) ≡ true
or_right x y e = ground arith

pub has-Among : (d : UsbDevice) (ds : List UsbDevice) → Among d ds → has d.bus_id ds ≡ true
unfolding has
has-Among d [] p = absurd p
has-Among d (x ∷ xs) (inl e) =
    subst (λ (y : UsbDevice). (bytes_eq y.bus_id d.bus_id || has d.bus_id xs) ≡ true) e
      (rw (bytes_eq_refl d.bus_id) refl)
has-Among d (x ∷ xs) (inr p) = or_right _ _ (has-Among d xs p)

pub found :
    (b : List ℕ) (ds : List UsbDevice)
    → has b ds ≡ true
    → (d : UsbDevice) × Among d ds × (d.bus_id ≡ b)
unfolding has
found b [] e = absurd (false≢true e)
found b (d ∷ ds) e = elim (Bool-cases (bytes_eq d.bus_id b)) [
  | inl f ↦ (d, inl refl, bytes_eq→eq d.bus_id b f)
  | inr f ↦
      (let (x, p, q) = found b ds (subst (λ (t : Bool). (t || has b ds) ≡ true) f e) in
        (x, inr p, q))
]

apart :
    (d : UsbDevice) (b : List ℕ) (ds : List UsbDevice)
    → has b ds ≡ false
    → Among d ds
    → d.bus_id ≡ b
    → ⊥
apart d b ds new p e =
    false≢true (sym new ∙ subst (λ (x : List ℕ). has x ds ≡ true) e (has-Among d ds p))

-- Two devices of one bus id in a list with no bus id twice.
pub same_device :
    (d e : UsbDevice) (ds : List UsbDevice)
    → Distinct ds
    → Among d ds
    → Among e ds
    → d.bus_id ≡ e.bus_id
    → d ≡ e
same_device d e [] dis p q b = absurd p
same_device d e (x ∷ xs) (new, dis) (inl p) (inl q) b = p ∙ sym q
same_device d e (x ∷ xs) (new, dis) (inl p) (inr q) b =
    absurd (apart e x.bus_id xs new q (sym b ∙ ap (λ (y : UsbDevice). y.bus_id) p))
same_device d e (x ∷ xs) (new, dis) (inr p) (inl q) b =
    absurd (apart d x.bus_id xs new p (b ∙ ap (λ (y : UsbDevice). y.bus_id) q))
same_device d e (x ∷ xs) (new, dis) (inr p) (inr q) b = same_device d e xs dis p q b

handle_of-some : (d : UsbDevice) (h : ℕ) → d.device_handler ≡ some h → Among h (handle_of d)
unfolding handle_of
handle_of-some d h e = rw e (inl refl)

pub handles-Among :
    (d : UsbDevice) (h : ℕ) (ds : List UsbDevice)
    → Among d ds
    → d.device_handler ≡ some h
    → Among h (handles ds)
unfolding handles
handles-Among d h [] p e = absurd p
handles-Among d h (x ∷ xs) (inl p) e =
    Among-left h (handle_of x) (handles xs)
      (handle_of-some x h (subst (λ (y : UsbDevice). y.device_handler ≡ some h) p e))
handles-Among d h (x ∷ xs) (inr p) e =
    Among-right h (handle_of x) (handles xs) (handles-Among d h xs p e)

of_handle : (o : Option ℕ) (h : ℕ) → Among h (elim o [ none ↦ [] | some x ↦ x ∷ [] ]) → o ≡ some h
of_handle none h p = absurd p
of_handle (some x) h (inl e) = ap some (sym e)
of_handle (some x) h (inr p) = absurd p

pub owner :
    (h : ℕ) (ds : List UsbDevice)
    → Among h (handles ds)
    → (d : UsbDevice) × Among d ds × (d.device_handler ≡ some h)
unfolding handles handle_of
owner h [] p = absurd p
owner h (x ∷ xs) p = elim (Among-append h (handle_of x) (handles xs) p) [
  | inl q ↦ (x, inl refl, of_handle x.device_handler h q)
  | inr q ↦ (let (d, r, e) = owner h xs q in (d, inr r, e))
]

-- A handle stands in a list.
abbrev pub elem_handle : ℕ → List ℕ → Bool
elem_handle h [] = false
elem_handle h (x ∷ xs) = h == x || elem_handle h xs

or_left : (x y : Bool) → x ≡ true → (x || y) ≡ true
or_left x y e = ground arith

only_right : (x y : Bool) → (x || y) ≡ true → x ≡ false → y ≡ true
only_right x y e f = ground arith

pub elem-Among : (h : ℕ) (xs : List ℕ) → Among h xs → elem_handle h xs ≡ true
elem-Among h [] p = absurd p
elem-Among h (x ∷ xs) (inl e) = or_left _ _ ((==_iff h x).1 e)
elem-Among h (x ∷ xs) (inr p) = or_right _ _ (elem-Among h xs p)

pub Among-elem : (h : ℕ) (xs : List ℕ) → elem_handle h xs ≡ true → Among h xs
Among-elem h [] e = absurd (false≢true e)
Among-elem h (x ∷ xs) e = elim (Bool-cases (h == x)) [
  | inl f ↦ inl ((==_iff h x).0 f)
  | inr f ↦ inr (Among-elem h xs (only_right _ _ e f))
]
