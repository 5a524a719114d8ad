-- ===== src/Tests/Device.antt =====
-- The strings and descriptors of src/device.rs, and a transfer of src/host.rs, on concrete devices.
use nusbip.Common.{
  List, inl, inr, ℕ, zero, ◌+◌, ◌*◌, ◌≤◌, ◌<◌, ◌^◌, suc, [], ◌∷◌, none, some, true, false, length,
  get_or, ok, panic, hang, ◌≡◌, ◌≢◌, refl, arith,
}
use nusbip.Device.Descriptors.{text_descriptor}
use nusbip.Device.Text.{IsTextDescriptor, text_descriptor-IsTextDescriptor}
use nusbip.Device.{UsbDevice}
use nusbip.Device.Names.{default_device, take_string}
use nusbip.Device.Pool.{Strings, get, remove, insert, new_string, new_string_from}
use nusbip.Device.Fresh.{
  Taken, new_string-least, new_string_total, new_string_panics, new_string_wraps,
}
use nusbip.Device.Slots.{
  Slot, configuration, serial, product, manufacturer, index_of, set_name, unset_name, string_of,
  IsNamed, left,
}
use nusbip.Device.Renaming.{set_name_lem}
use nusbip.Device.Unsetting.{unset_name_lem}
use nusbip.Device.Descriptors.{
  configuration_descriptor, interface_descriptors, endpoint_descriptors, cut_to,
}
use nusbip.Device.Chain.{configuration_total_length, verify-configuration_descriptor}
use nusbip.Verify.{verify_descriptor, none_left}
use native.Mathlib.Decide.{ℕ_discrete}
use nusbip.Tests.Data.{device_named}

-- A product and a serial number, at indices 1 and 2.
abbrev disk : UsbDevice
disk = device_named (49 ∷ [])

disk-IsNamed : IsNamed disk
unfolding index_of get default_device
disk-IsNamed = record { present = has_string; distinct = apart }
  where
    has_string : (a : Slot) → index_of a disk ≢ 0 → get (index_of a disk) disk.string_pool ≢ none
    has_string configuration used e = absurd (used refl)
    has_string serial used e = cc
    has_string product used e = cc
    has_string manufacturer used e = absurd (used refl)

    apart : (a b : Slot) → a ≢ b → index_of a disk ≢ 0 → index_of a disk ≢ index_of b disk
    apart configuration b ne used e = absurd (used refl)
    apart manufacturer b ne used e = absurd (used refl)
    apart serial serial ne used e = absurd (ne refl)
    apart product product ne used e = absurd (ne refl)
    apart serial configuration ne used e = omega arith
    apart serial product ne used e = omega arith
    apart serial manufacturer ne used e = omega arith
    apart product configuration ne used e = omega arith
    apart product serial ne used e = omega arith
    apart product manufacturer ne used e = omega arith

product≢serial : product ≢ serial
product≢serial e = cc

free_index : get 3 (left product disk) ≡ none
unfolding left take_string index_of get remove
free_index = refl

set_name_example :
    (d' : UsbDevice) × (set_name product true (81 ∷ []) disk ≡ ok (string_of product disk, d'))
    × (string_of product d' ≡ some (81 ∷ []))
    × (string_of serial d' ≡ string_of serial disk)
    × IsNamed d'
set_name_example =
    set_name_lem product serial true (81 ∷ []) disk 3 product≢serial disk-IsNamed (omega arith)
      (omega arith) free_index

unset_name_example :
    ((unset_name product disk).0 ≡ string_of product disk)
    × (string_of product (unset_name product disk).1 ≡ none)
    × (string_of serial (unset_name product disk).1 ≡ string_of serial disk)
    × IsNamed (unset_name product disk).1
unset_name_example = unset_name_lem product serial disk product≢serial disk-IsNamed

new_string_total_example :
    (j : ℕ) × (new_string true (66 ∷ []) ((1, 65 ∷ []) ∷ [])
      ≡ ok (j, insert j (66 ∷ []) ((1, 65 ∷ []) ∷ [])))
    × (1 ≤ j)
    × (j ≤ 2)
unfolding get
new_string_total_example =
    new_string_total true 2 (66 ∷ []) ((1, 65 ∷ []) ∷ []) (omega arith) (omega arith) refl

two_fresh :
    new_string true (66 ∷ []) ((1, 65 ∷ []) ∷ []) ≡ ok (2, insert 2 (66 ∷ []) ((1, 65 ∷ []) ∷ []))
unfolding new_string new_string_from get
two_fresh = refl

new_string-least_example :
    (2 < 256)
    × (get 2 ((1, 65 ∷ []) ∷ []) ≡ none)
    × (insert 2 (66 ∷ []) ((1, 65 ∷ []) ∷ []) ≡ insert 2 (66 ∷ []) ((1, 65 ∷ []) ∷ []))
    × Taken 1 2 ((1, 65 ∷ []) ∷ [])
new_string-least_example =
    new_string-least true (66 ∷ []) ((1, 65 ∷ []) ∷ []) (2, insert 2 (66 ∷ []) ((1, 65 ∷ []) ∷ []))
      two_fresh

-- A pool with a string at every index from 1.
abbrev filled : ℕ → Strings
filled zero = []
filled (suc n) = (suc n, 65 ∷ []) ∷ filled n

get-filled : (n j : ℕ) → 1 ≤ j → j < suc n → get j (filled n) ≢ none
unfolding get
get-filled zero j lo hi = absurd (omega arith)
get-filled (suc n) j lo hi = elim (ℕ_discrete (suc n) j) [
  | yes e ↦ ground arith
  | no ne ↦ ground (arith, get-filled n j lo (omega arith))
]

new_string_panics_example : new_string true (66 ∷ []) (filled 254) ≡ panic
new_string_panics_example = new_string_panics (66 ∷ []) (filled 254) (get-filled 254)

new_string_wraps_example :
    new_string false (66 ∷ []) (filled 255)
    ≡ elim (get 0 (filled 255)) [ none ↦ ok (0, insert 0 (66 ∷ []) (filled 255)) | some _ ↦ hang ]
new_string_wraps_example = new_string_wraps (66 ∷ []) (filled 255) (get-filled 255)

disk_configuration : length (configuration_descriptor disk) < 2 ^ 16
unfolding configuration_descriptor interface_descriptors endpoint_descriptors default_device
disk_configuration = omega arith

configuration_total_length_example :
    let front = cut_to 9 (configuration_descriptor disk) in
    let total = get_or front 2 0 + 256 * get_or front 3 0 in
    (total ≡ length (configuration_descriptor disk))
    × (cut_to total (configuration_descriptor disk) ≡ configuration_descriptor disk)
configuration_total_length_example =
    configuration_total_length disk 9 disk_configuration (omega arith)

verify-configuration_descriptor_example : verify_descriptor (configuration_descriptor disk) ≡ ok tt
verify-configuration_descriptor_example = verify-configuration_descriptor disk (none_left, tt)

-- `A`, and a character that takes two units.
abbrev two_chars : List ℕ
two_chars = b'A' ∷ 0x1_f600 ∷ []

text_descriptor_example : IsTextDescriptor true two_chars (text_descriptor true two_chars)
text_descriptor_example =
    text_descriptor-IsTextDescriptor true two_chars
      (inl (omega arith), (inr (omega arith, omega arith), tt))
