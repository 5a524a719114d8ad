-- ===== src/Device/Unsetting.antt =====
-- Unsetting a name of a `UsbDevice` in src/device.rs.
use nusbip.Common.{none, ◌≡◌, ◌≢◌, refl, sym, ◌∙◌, subst, arith}
use native.Mathlib.Decide.{ℕ_discrete}
use nusbip.Device.{UsbDevice}
use nusbip.Device.Slots.{
  Slot, index_of, unset_name, string_of, IsNamed, with_slot, left, unset_name-eq, index-with_slot,
  index-with_slot_ne, pool-with_slot,
}
use nusbip.Device.Renaming.{Slot-discrete, kept}

abbrev cleared : Slot → UsbDevice → UsbDevice
cleared a d = with_slot a 0 (left a d) d

string_of-cleared : (a : Slot) (d : UsbDevice) → string_of a (cleared a d) ≡ none
unfolding string_of
string_of-cleared a d = rw index-with_slot refl

string_of-cleared_ne :
    (a b : Slot) (d : UsbDevice) → IsNamed d → a ≢ b → string_of b (cleared a d) ≡ string_of b d
unfolding string_of
string_of-cleared_ne a b d named ne =
    rw (index-with_slot_ne a b 0 (left a d) d ne, pool-with_slot)
      (elim (ℕ_discrete (index_of b d) 0) [
        | yes e ↦ ground arith
        | no used ↦ ground (arith, kept a b d named ne used)
      ])

-- The used indices of the device after are used before, by the same slot.
still_used :
    (a b : Slot) (d : UsbDevice)
    → index_of b (cleared a d) ≢ 0
    → (a ≢ b) × (index_of b (cleared a d) ≡ index_of b d)
still_used a b d used = elim (Slot-discrete a b) [
  | yes e ↦
      absurd (used (subst (λ z. index_of z (cleared a d) ≡ 0) e (index-with_slot a 0 (left a d) d)))
  | no ne ↦ (ne, index-with_slot_ne a b 0 (left a d) d ne)
]

cleared-IsNamed : (a : Slot) (d : UsbDevice) → IsNamed d → IsNamed (cleared a d)
cleared-IsNamed a d named = record {
  present = λ b used.
      let (ne, e) = still_used a b d used in
      let before : index_of b d ≢ 0 = (λ z. used (e ∙ z)) in
      rw (e, pool-with_slot, kept a b d named ne before) (named.present b before);
  distinct = λ x y ne used same.
      let (nx, ex) = still_used a x d used in
      let (ny, ey) = still_used a y d (λ z. used (same ∙ z)) in
      named.distinct x y ne (λ z. used (ex ∙ z)) (sym ex ∙ same ∙ ey);
}

-- Unsetting a name returns it; the slot then stands for none, any other slot stands for what it
-- did, and each used index still has a string of its own.
pub unset_name_lem :
    (a b : Slot) (d : UsbDevice)
    → a ≢ b
    → IsNamed d
    → ((unset_name a d).0 ≡ string_of a d)
      × (string_of a (unset_name a d).1 ≡ none)
      × (string_of b (unset_name a d).1 ≡ string_of b d)
      × IsNamed (unset_name a d).1
unset_name_lem a b d ne named =
    rw (unset_name-eq a d)
      (refl, string_of-cleared a d, string_of-cleared_ne a b d named ne, cleared-IsNamed a d named)
