-- ===== src/Device/Slots.antt =====
-- The four names of a `UsbDevice` in src/device.rs: what setting and unsetting one does to it, and to
-- the other three.
use nusbip.Common.{
  ℕ, List, Option, none, Bool, ◌==◌, if◌then◌else◌, Outcome, ok, bind, ◌≡◌, ◌≢◌, refl, arith,
}
use nusbip.Device.{UsbDevice}
use nusbip.Device.Pool.{Strings, get, new_string, get-remove}
use nusbip.Device.Names.{
  take_string, set_configuration_name, unset_configuration_name, set_serial_number,
  unset_serial_number, set_product_name, unset_product_name, set_manufacturer_name,
  unset_manufacturer_name,
}

pub data Slot : Type 0 where
  configuration serial product manufacturer : Slot

unfoldable pub index_of : Slot → UsbDevice → ℕ
index_of configuration d = d.string_configuration
index_of serial d = d.string_serial
index_of product d = d.string_product
index_of manufacturer d = d.string_manufacturer

unfoldable pub set_name : Slot → Bool → List ℕ → UsbDevice → Outcome (Option (List ℕ) × UsbDevice)
set_name configuration = set_configuration_name
set_name serial = set_serial_number
set_name product = set_product_name
set_name manufacturer = set_manufacturer_name

unfoldable pub unset_name : Slot → UsbDevice → Option (List ℕ) × UsbDevice
unset_name configuration = unset_configuration_name
unset_name serial = unset_serial_number
unset_name product = unset_product_name
unset_name manufacturer = unset_manufacturer_name

-- The name that a slot stands for: index 0 stands for none.
unfoldable pub string_of : Slot → UsbDevice → Option (List ℕ)
string_of a d = if index_of a d == 0 then none else get (index_of a d) d.string_pool

-- Every index in use has a string, and no two slots use one.
pub record IsNamed (d : UsbDevice) : Type 0 where
  pub present : (a : Slot) → index_of a d ≢ 0 → get (index_of a d) d.string_pool ≢ none
  pub distinct : (a b : Slot) → a ≢ b → index_of a d ≢ 0 → index_of a d ≢ index_of b d

pub with_slot : Slot → ℕ → Strings → UsbDevice → UsbDevice
with_slot configuration i pool d = record d { string_pool = pool; string_configuration = i }
with_slot serial i pool d = record d { string_pool = pool; string_serial = i }
with_slot product i pool d = record d { string_pool = pool; string_product = i }
with_slot manufacturer i pool d = record d { string_pool = pool; string_manufacturer = i }

unfoldable pub left : Slot → UsbDevice → Strings
left a d = (take_string (index_of a d) d.string_pool).1

pub set_name-eq :
    (a : Slot) (debug : Bool) (name : List ℕ) (d : UsbDevice)
    → set_name a debug name d
      ≡ bind (new_string debug name (left a d)) λ r. ok (string_of a d, with_slot a r.0 r.1 d)
unfolding set_name left with_slot string_of index_of set_configuration_name set_serial_number
    set_product_name set_manufacturer_name
set_name-eq configuration debug name d = ground arith
set_name-eq serial debug name d = ground arith
set_name-eq product debug name d = ground arith
set_name-eq manufacturer debug name d = ground arith

pub unset_name-eq :
    (a : Slot) (d : UsbDevice) → unset_name a d ≡ (string_of a d, with_slot a 0 (left a d) d)
unfolding unset_name left with_slot string_of index_of unset_configuration_name unset_serial_number
    unset_product_name unset_manufacturer_name
unset_name-eq configuration d = ground arith
unset_name-eq serial d = ground arith
unset_name-eq product d = ground arith
unset_name-eq manufacturer d = ground arith

pub index-with_slot :
    (a : Slot) (i : ℕ) (pool : Strings) (d : UsbDevice) → index_of a (with_slot a i pool d) ≡ i
unfolding index_of with_slot
index-with_slot configuration i pool d = refl
index-with_slot serial i pool d = refl
index-with_slot product i pool d = refl
index-with_slot manufacturer i pool d = refl

pub index-with_slot_ne :
    (a b : Slot) (i : ℕ) (pool : Strings) (d : UsbDevice)
    → a ≢ b
    → index_of b (with_slot a i pool d) ≡ index_of b d
unfolding index_of with_slot
index-with_slot_ne configuration configuration i pool d ne = absurd (ne refl)
index-with_slot_ne serial serial i pool d ne = absurd (ne refl)
index-with_slot_ne product product i pool d ne = absurd (ne refl)
index-with_slot_ne manufacturer manufacturer i pool d ne = absurd (ne refl)
index-with_slot_ne configuration _ i pool d ne = refl
index-with_slot_ne serial _ i pool d ne = refl
index-with_slot_ne product _ i pool d ne = refl
index-with_slot_ne manufacturer _ i pool d ne = refl

pub pool-with_slot :
    (a : Slot) (i : ℕ) (pool : Strings) (d : UsbDevice) → (with_slot a i pool d).string_pool ≡ pool
unfolding with_slot
pool-with_slot configuration i pool d = refl
pool-with_slot serial i pool d = refl
pool-with_slot product i pool d = refl
pool-with_slot manufacturer i pool d = refl

pub get-left :
    (a : Slot) (d : UsbDevice) (j : ℕ) → j ≢ index_of a d → get j (left a d) ≡ get j d.string_pool
unfolding left take_string
get-left a d j ne = ground (arith, get-remove (index_of a d) j d.string_pool)
