-- ===== src/Common/Words.antt =====
-- Bytes, and the big-endian form of the unsigned integers.
use Prim.Native.Nat.{ℕ, ◌+◌, ◌*◌, ◌/◌, ◌%◌, ◌^◌, ◌<◌}
use Prim.Native.Char.{code}
use Prim.Native.String.{String}
use mathlib.Core.List.{List, [], ◌∷◌}

abbrev pub IsByte : ℕ → Type 0
IsByte b = b < 256

abbrev pub IsU16 : ℕ → Type 0
IsU16 v = v < 2 ^ 16

abbrev pub IsU32 : ℕ → Type 0
IsU32 v = v < 2 ^ 32

-- `to_be_bytes` of a `u16` and of a `u32`.
unfoldable pub u16_be : ℕ → List ℕ
u16_be v = (v / 256 % 256) ∷ (v % 256) ∷ []

unfoldable pub u32_be : ℕ → List ℕ
u32_be v = (v / 0x100_0000 % 256) ∷ (v / 0x1_0000 % 256) ∷ (v / 0x100 % 256) ∷ (v % 256) ∷ []

-- `from_be_bytes`, on the bytes one by one.
abbrev pub from_be2 : ℕ → ℕ → ℕ
from_be2 a b = a * 256 + b

abbrev pub from_be4 : ℕ → ℕ → ℕ → ℕ → ℕ
from_be4 a b c d = a * 0x100_0000 + b * 0x1_0000 + c * 0x100 + d

-- The code points of a literal.
abbrev pub codes : String → List ℕ
codes String.[] = []
codes (String.◌∷◌ c s) = code c ∷ codes s
