-- ===== src/Units.antt =====
-- The unit tests of the repository on the model, in a build with debug assertions, as the tests are. An
-- `assert_eq!` is a Boolean test, and a socket is the bytes that it has.
pub mod Commands
pub mod Replies
pub mod Reads
pub mod Others
use nusbip.Common.{
  ℕ, zero, suc, List, [], ◌∷◌, ◌++◌, Bool, true, false, ◌==◌, bytes_eq, Outcome, ok, err, panic,
  hang, Error, unknown_version, unknown_command,
}
use nusbip.Protocol.Command.{Command, command_to_bytes}
use nusbip.Protocol.Read.{read_from_socket}
use nusbip.Device.{UsbDevice}
use nusbip.Device.Bytes.{device_to_bytes}

-- The bytes are these.
abbrev pub writes : Outcome (List ℕ) → List ℕ → Bool
writes (ok bytes) expected = bytes_eq bytes expected
writes _ expected = false

-- The bytes are a front and then those of the device.
abbrev pub writes_device : UsbDevice → List ℕ → Outcome (List ℕ) → Bool
writes_device d front bytes = elim (device_to_bytes true d) as (λ w. Bool) [
  | ok device ↦ writes bytes (front ++ device)
  | err e ↦ false
  | panic ↦ false
  | hang ↦ false
]

abbrev pub panics : Outcome (List ℕ) → Bool
panics panic = true
panics _ = false

-- What is read from the bytes is written as the same bytes.
abbrev same_command : List ℕ → Outcome (Command × List ℕ) → Bool
same_command bytes (ok (c, rest)) = writes (command_to_bytes true c) bytes
same_command bytes _ = false

abbrev reads_as : Outcome (List ℕ) → Bool
reads_as (ok bytes) = same_command bytes (read_from_socket true bytes)
reads_as _ = false

abbrev pub reads_back : Command → Bool
reads_back c = reads_as (command_to_bytes true c)

-- `bytes[i] = b`.
abbrev set_byte : ℕ → ℕ → List ℕ → List ℕ
set_byte i b [] = []
set_byte zero b (x ∷ xs) = b ∷ xs
set_byte (suc i) b (x ∷ xs) = x ∷ set_byte i b xs

abbrev pub with_byte : ℕ → ℕ → Outcome (List ℕ) → List ℕ
with_byte i b (ok bytes) = set_byte i b bytes
with_byte i b _ = []

-- The message of an error has its number.
abbrev same_error : Error → Error → Bool
same_error (unknown_version v) (unknown_version w) = v == w
same_error (unknown_command v) (unknown_command w) = v == w
same_error _ _ = false

abbrev ends_with : Error → Outcome (Command × List ℕ) → Bool
ends_with e (err f) = same_error e f
ends_with e _ = false

abbrev pub fails_with : Error → List ℕ → Bool
fails_with e bytes = ends_with e (read_from_socket true bytes)
