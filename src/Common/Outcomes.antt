-- ===== src/Common/Outcomes.antt =====
-- What a call of the program ends in.
use Prim.Native.Nat.{ℕ}
use mathlib.Core.Bool.{Bool, ◌&&◌, not}
use mathlib.Core.List.{List}
use mathlib.Core.Bool.{true, false}
use mathlib.Core.Path.{◌≡◌, refl}
use nusbip.Common.Tests.{if◌then◌else◌}

-- `std::io::ErrorKind`, the kinds that the program makes or tests.
pub data ErrorKind : Type 0 where
  kind_unexpected_eof kind_other kind_not_found kind_invalid_input kind_broken_pipe : ErrorKind
  kind_interrupted : ErrorKind

-- The `std::io::Error` values of the program, each with what its message shows. `host` is an error
-- that the USB library returns.
pub data Error : Type 0 where
  unexpected_eof broken_pipe no_available_device : Error
  device_gone open_failed : Error
  unknown_version unknown_command invalid_string_index host : ℕ → Error
  invalid_bus_id device_in_use device_not_found : List ℕ → Error

unfoldable pub kind : Error → ErrorKind
kind unexpected_eof = kind_unexpected_eof
kind broken_pipe = kind_broken_pipe
kind (device_not_found b) = kind_not_found
kind device_gone = kind_not_found
kind open_failed = kind_interrupted
kind (invalid_string_index i) = kind_invalid_input
kind _ = kind_other

-- A value, an error, a panic, or no end at all.
pub data Outcome {ℓ} (A : Type ℓ) : Type ℓ where
  ok : A → Outcome A
  err : Error → Outcome A
  panic : Outcome A
  hang : Outcome A

abbrev pub bind {ℓ κ} : {A : Type ℓ} {B : Type κ} → Outcome A → (A → Outcome B) → Outcome B
bind (ok a) f = f a
bind (err e) f = err e
bind panic f = panic
bind hang f = hang

-- `debug_assert!`: it panics in a build with debug assertions, and is gone in any other.
abbrev pub debug_assert : Bool → Bool → Outcome (Unit {0})
debug_assert debug b = if debug && not b then panic else ok tt

-- The call comes to an end, be it by a panic.
abbrev pub Ends {ℓ} : {A : Type ℓ} → Outcome A → Type 0
Ends hang = ⊥
Ends _ = Unit

pub bind-Ends {ℓ κ} :
    {A : Type ℓ} {B : Type κ} (o : Outcome A) (f : A → Outcome B)
    → Ends o
    → ((a : A) → Ends (f a))
    → Ends (bind o f)
bind-Ends (ok a) f h step = step a
bind-Ends (err e) f h step = tt
bind-Ends panic f h step = tt
bind-Ends hang f h step = h

pub if_both {ℓ κ} :
    {A : Type ℓ} (P : A → Type κ) (b : Bool) {x y : A} → P x → P y → P (if b then x else y)
if_both P true p q = p
if_both P false p q = q

-- The branches may use the test.
pub if_cases {ℓ κ} :
    {A : Type ℓ} (P : A → Type κ) (b : Bool) {x y : A}
    → (b ≡ true → P x)
    → (b ≡ false → P y)
    → P (if b then x else y)
if_cases P true p q = p refl
if_cases P false p q = q refl

pub debug_assert-Ends : (debug b : Bool) → Ends (debug_assert debug b)
debug_assert-Ends true true = tt
debug_assert-Ends true false = tt
debug_assert-Ends false b = tt
