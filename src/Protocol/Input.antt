-- ===== src/Protocol/Input.antt =====
-- Reading from a socket, as from the `MockSocket` of src/util.rs: the input is the bytes that are
-- still to come, and a read past their end is an `UnexpectedEof`.
use nusbip.Common.{ℕ, zero, suc, List, [], ◌∷◌, Outcome, ok, err, unexpected_eof, bind}
use nusbip.Common.{from_be2, from_be4}

-- A reader consumes a part of the input, or fails.
abbrev pub Reader {ℓ} : Type ℓ → Type ℓ
Reader A = List ℕ → Outcome (A × List ℕ)

infixl 5 ◌>>=◌ ◌>>◌
abbrev pub ◌>>=◌ {ℓ κ} : {A : Type ℓ} {B : Type κ} → Reader A → (A → Reader B) → Reader B
◌>>=◌ m f input = bind (m input) λ r. f r.0 r.1

abbrev pub ◌>>◌ {ℓ} : {B : Type ℓ} → Reader (Unit {0}) → Reader B → Reader B
m >> k = m >>= λ _. k

abbrev pub pure {ℓ} : {A : Type ℓ} → A → Reader A
pure a input = ok (a, input)

-- A step that does not read.
abbrev pub lift {ℓ} : {A : Type ℓ} → Outcome A → Reader A
lift m input = bind m λ a. ok (a, input)

unfoldable pub read_u16 : Reader ℕ
read_u16 (a ∷ b ∷ rest) = ok (from_be2 a b, rest)
read_u16 _ = err unexpected_eof

unfoldable pub read_u32 : Reader ℕ
read_u32 (a ∷ b ∷ c ∷ d ∷ rest) = ok (from_be4 a b c d, rest)
read_u32 _ = err unexpected_eof

-- `read_exact` into a buffer of `n` bytes.
unfoldable pub read_exact : ℕ → Reader (List ℕ)
read_exact zero input = ok ([], input)
read_exact (suc n) [] = err unexpected_eof
read_exact (suc n) (b ∷ input) = bind (read_exact n input) λ r. ok (b ∷ r.0, r.1)
