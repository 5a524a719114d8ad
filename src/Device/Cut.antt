-- ===== src/Device/Cut.antt =====
-- What a host gets of a descriptor that src/device.rs builds.
use nusbip.Common.{
  ℕ, zero, suc, ◌%◌, ◌^◌, ◌≤◌, ◌<◌, List, [], ◌∷◌, true, false, ltb, length, resize-eq-take, take,
  ◌≡◌, refl, sym, ap, arith, Bool-cases, inl, inr,
}
use nusbip.Device.Descriptors.{cut_to}

pub take_all : (n : ℕ) (xs : List ℕ) → length xs ≤ n → take n xs ≡ xs
take_all zero [] h = refl
take_all zero (x ∷ xs) h = absurd (omega arith)
take_all (suc n) [] h = refl
take_all (suc n) (x ∷ xs) h = ap (◌∷◌ x) (take_all n xs (omega arith))

-- Cut to a requested length, a descriptor shorter than 2 ^ 16 bytes is its own front: all of it if it
-- is not longer than requested, and otherwise exactly as many bytes as requested.
pub cut_to-eq-take :
    (requested : ℕ) (desc : List ℕ)
    → length desc < 2 ^ 16
    → cut_to requested desc ≡ take requested desc
unfolding cut_to
cut_to-eq-take requested desc h = elim (Bool-cases (ltb requested (length desc))) [
  | inl short ↦ rw (fits, short) (resize-eq-take requested 0 desc (within short))
  | inr long ↦ rw (fits, long) (sym (take_all requested desc (beyond long)))
]
  where
    fits : length desc % 2 ^ 16 ≡ length desc
    fits = omega arith

    within : ltb requested (length desc) ≡ true → requested ≤ length desc
    within e = ground arith

    beyond : ltb requested (length desc) ≡ false → length desc ≤ requested
    beyond e = ground arith
