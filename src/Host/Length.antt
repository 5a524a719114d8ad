-- ===== src/Host/Length.antt =====
-- How much src/host.rs asks for in a bulk IN transfer.
use nusbip.Common.{
  ℕ, ◌+◌, ◌-◌, ◌*◌, ◌/◌, ◌%◌, ◌^◌, ◌≤◌, ◌<◌, Bool, true, false, IsU32, ok, panic, ◌≡◌, refl, arith,
}
use native.Mathlib.Nat.{div-add-mod, mod-lt}
use nusbip.Host.{requested_len}

ceiling : (n p : ℕ) → 1 ≤ n → 1 ≤ p → (n ≤ ((n - 1) / p + 1) * p) × (((n - 1) / p + 1) * p < n + p)
ceiling n p hn hp = omega (arith, div-add-mod (n - 1) p)

no_wrap : (n : ℕ) → 1 ≤ n → IsU32 n → (n + 2 ^ 32 - 1) % 2 ^ 32 ≡ n - 1
no_wrap n hn fits = omega arith

-- For a transfer of at least one byte and a packet size that is not 0, the length asked for is a
-- multiple of the packet size: the least that holds the transfer.
pub requested_len_ceiling :
    (debug : Bool) (n p : ℕ)
    → 1 ≤ n
    → IsU32 n
    → 1 ≤ p
    → (k : ℕ) × (requested_len debug n p ≡ ok (k * p)) × (n ≤ k * p) × (k * p < n + p)
unfolding requested_len
requested_len_ceiling debug n p hn fits hp =
    let (low, high) = ceiling n p hn hp in
    ((n - 1) / p + 1, rw (no_wrap n hn fits) (ground arith), low, high)

-- A transfer of no bytes panics in a debug build; any other build asks for the least multiple of the
-- packet size that holds 2 ^ 32 - 1 bytes and more.
pub requested_len_empty :
    (p : ℕ)
    → 1 ≤ p
    → (requested_len true 0 p ≡ panic)
      × ((k : ℕ) × (requested_len false 0 p ≡ ok (k * p)) × (2 ^ 32 ≤ k * p))
unfolding requested_len
requested_len_empty p hp =
    (refl, ((2 ^ 32 - 1) / p + 1, ground arith, omega (arith, div-add-mod (2 ^ 32 - 1) p, mod-lt)))
