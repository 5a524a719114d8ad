-- ===== src/Device/Pool.antt =====
-- The string pool of src/device.rs, a `HashMap<u8, String>`, and `UsbDevice::new_string`.
use nusbip.Common.{
  ℕ, zero, suc, ◌+◌, ◌%◌, List, [], ◌∷◌, Option, none, some, Bool, ◌&&◌, ◌==◌, if◌then◌else◌,
  Outcome, ok, panic, hang, ◌≡◌, refl, arith,
}

abbrev pub Strings : Type 0
Strings = List (ℕ × List ℕ)

unfoldable pub get : ℕ → Strings → Option (List ℕ)
get i [] = none
get i ((j, s) ∷ pool) = if j == i then some s else get i pool

unfoldable pub remove : ℕ → Strings → Strings
remove i [] = []
remove i ((j, s) ∷ pool) = if j == i then remove i pool else (j, s) ∷ remove i pool

-- A new key, which is not in the pool.
abbrev pub insert : ℕ → List ℕ → Strings → Strings
insert i s pool = (i, s) ∷ pool

-- `for i in 1..` over `u8`. The range computes the successor of `i` before it hands `i` out: at 255
-- that panics in a debug build and wraps in any other. A round that finds `i` taken goes on; once
-- each of the 256 numbers was found taken, no later round ends.
unfoldable pub new_string_from : Bool → ℕ → ℕ → List ℕ → Strings → Outcome (ℕ × Strings)
new_string_from debug zero i s pool = hang
new_string_from debug (suc rounds) i s pool =
    let next = new_string_from debug rounds ((i + 1) % 256) s pool in
    if debug && i == 255
    then panic
    else elim (get i pool) [ none ↦ ok (i, insert i s pool) | some _ ↦ next ]

unfoldable pub new_string : Bool → List ℕ → Strings → Outcome (ℕ × Strings)
unfolding new_string_from
new_string debug s pool = new_string_from debug 256 1 s pool

pub get-remove :
    (i j : ℕ) (pool : Strings) → get j (remove i pool) ≡ (if i == j then none else get j pool)
unfolding get remove
get-remove i j [] = ground arith
get-remove i j ((k, s) ∷ pool) = ground (arith, get-remove i j pool)

pub get-insert :
    (i j : ℕ) (s : List ℕ) (pool : Strings)
    → get j (insert i s pool) ≡ (if i == j then some s else get j pool)
unfolding get
get-insert i j s pool = refl
