-- ===== src/Device/Renaming.antt =====
-- Setting and unsetting a name of a `UsbDevice` in src/device.rs keeps the others.
use nusbip.Common.{ℕ, ◌≤◌, List, none, some, Bool, ok, ◌≡◌, ◌≢◌, sym, ◌∙◌, subst, arith}
use native.Mathlib.Decide.{ℕ_discrete}
use nusbip.Device.{UsbDevice}
use nusbip.Device.Pool.{Strings, get, insert, get-insert}
use nusbip.Device.Fresh.{new_string-least, new_string_total}
use nusbip.Device.Slots.{
  Slot, index_of, set_name, string_of, IsNamed, with_slot, left, set_name-eq, index-with_slot,
  index-with_slot_ne, pool-with_slot, get-left,
}

pub Slot-discrete : Discrete Slot
Slot-discrete = hlevel

-- The string of a used index that another slot holds is still there when a slot gives up its own.
pub kept :
    (a b : Slot) (d : UsbDevice)
    → IsNamed d
    → a ≢ b
    → index_of b d ≢ 0
    → get (index_of b d) (left a d) ≡ get (index_of b d) d.string_pool
kept a b d named ne used = get-left a d (index_of b d) (named.distinct b a (λ e. ne (sym e)) used)

-- A free index is not one that another slot uses.
not_used :
    (a b : Slot) (i : ℕ) (d : UsbDevice)
    → IsNamed d
    → a ≢ b
    → index_of b d ≢ 0
    → get i (left a d) ≡ none
    → i ≢ index_of b d
not_used a b i d named ne used free e =
    named.present b used
      (sym (kept a b d named ne used) ∙ subst (λ x. get x (left a d) ≡ none) e free)

-- The device after slot `a` was given the free index `i`.
abbrev renamed : Slot → ℕ → List ℕ → UsbDevice → UsbDevice
renamed a i name d = with_slot a i (insert i name (left a d)) d

string_of-renamed :
    (a : Slot) (i : ℕ) (name : List ℕ) (d : UsbDevice)
    → i ≢ 0
    → string_of a (renamed a i name d) ≡ some name
unfolding string_of
string_of-renamed a i name d used =
    rw (index-with_slot, pool-with_slot) (ground (arith, get-insert i i name (left a d)))

string_of-renamed_ne :
    (a b : Slot) (i : ℕ) (name : List ℕ) (d : UsbDevice)
    → IsNamed d
    → a ≢ b
    → get i (left a d) ≡ none
    → string_of b (renamed a i name d) ≡ string_of b d
unfolding string_of
string_of-renamed_ne a b i name d named ne free =
    rw (index-with_slot_ne a b i (insert i name (left a d)) d ne, pool-with_slot)
      (elim (ℕ_discrete (index_of b d) 0) [
        | yes e ↦ ground arith
        | no used ↦ ground (
          arith,
          get-insert i (index_of b d) name (left a d),
          not_used a b i d named ne used free,
          kept a b d named ne used,
        )
      ])

distinct_renamed :
    (a : Slot) (i : ℕ) (name : List ℕ) (d : UsbDevice) (x y : Slot)
    → IsNamed d
    → i ≢ 0
    → get i (left a d) ≡ none
    → x ≢ y
    → index_of x (renamed a i name d) ≢ 0
    → index_of x (renamed a i name d) ≢ index_of y (renamed a i name d)
distinct_renamed a i name d x y named pos free ne used e = elim (Slot-discrete a x) [
  | yes ax ↦
      first (λ ay. ne (sym ax ∙ ay))
        (sym (subst (λ z. index_of z (renamed a i name d) ≡ i) ax (index-with_slot a i p d)))
  | no nx ↦ elim (Slot-discrete a y) [
    | yes ay ↦
        second nx (subst (λ z. index_of z (renamed a i name d) ≡ i) ay (index-with_slot a i p d))
    | no ny ↦
        named.distinct x y ne (λ z. used (index-with_slot_ne a x i p d nx ∙ z))
          (sym (index-with_slot_ne a x i p d nx) ∙ e ∙ index-with_slot_ne a y i p d ny)
  ]
]
  where
    p : Strings
    p = insert i name (left a d)

    apart : (z : Slot) → a ≢ z → i ≢ index_of z d
    apart z nz = elim (ℕ_discrete (index_of z d) 0) [
      | yes zero_index ↦ λ h. pos (h ∙ zero_index)
      | no in_use ↦ not_used a z i d named nz in_use free
    ]

    first : a ≢ y → i ≡ index_of x (renamed a i name d) → ⊥
    first ny h = apart y ny (h ∙ e ∙ index-with_slot_ne a y i p d ny)

    second : a ≢ x → index_of y (renamed a i name d) ≡ i → ⊥
    second nx h = apart x nx (sym h ∙ sym e ∙ index-with_slot_ne a x i p d nx)

renamed-IsNamed :
    (a : Slot) (i : ℕ) (name : List ℕ) (d : UsbDevice)
    → IsNamed d
    → i ≢ 0
    → get i (left a d) ≡ none
    → IsNamed (renamed a i name d)
renamed-IsNamed a i name d named pos free = record {
  present = λ b. elim (Slot-discrete a b) [
    | yes e ↦ subst (λ x. index_of x e' ≢ 0 → get (index_of x e') e'.string_pool ≢ none) e here
    | no ne ↦ there b ne
  ];
  distinct = λ x y ne used. distinct_renamed a i name d x y named pos free ne used;
}
  where
    e' : UsbDevice
    e' = renamed a i name d

    here : index_of a e' ≢ 0 → get (index_of a e') e'.string_pool ≢ none
    here u = rw (index-with_slot, pool-with_slot) (ground (arith, get-insert i i name (left a d)))

    there : (b : Slot) → a ≢ b → index_of b e' ≢ 0 → get (index_of b e') e'.string_pool ≢ none
    there b ne =
        rw (index-with_slot_ne a b i (insert i name (left a d)) d ne, pool-with_slot)
          λ used. ground (
            arith,
            get-insert i (index_of b d) name (left a d),
            kept a b d named ne used,
            named.present b used,
          )

-- Setting a name succeeds in every build if an index from 1 to 254 is free once the old name is out.
-- It returns the old name, the slot then stands for the new one, any other slot stands for what it
-- did, and each used index still has a string of its own.
pub set_name_lem :
    (a b : Slot) (debug : Bool) (name : List ℕ) (d : UsbDevice) (i : ℕ)
    → a ≢ b
    → IsNamed d
    → 1 ≤ i
    → i ≤ 254
    → get i (left a d) ≡ none
    → (d' : UsbDevice) × (set_name a debug name d ≡ ok (string_of a d, d'))
      × (string_of a d' ≡ some name)
      × (string_of b d' ≡ string_of b d)
      × IsNamed d'
set_name_lem a b debug name d i ne named lo hi free =
    let (j, e, pos, _) = new_string_total debug i name (left a d) lo hi free in
    let least = new_string-least debug name (left a d) (j, insert j name (left a d)) e in
    (
      renamed a j name d,
      rw (set_name-eq a debug name d, e),
      string_of-renamed a j name d (omega arith),
      string_of-renamed_ne a b j name d named ne least.1,
      renamed-IsNamed a j name d named (omega arith) least.1,
    )
