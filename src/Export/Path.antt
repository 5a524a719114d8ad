-- ===== src/Export/Path.antt =====
-- The bus id of a device of the host in src/lib.rs: the last component of its path in the file system,
-- as `Path::file_name` and `OsString::into_string` of the standard library give it.
use nusbip.Common.{
  ℕ, ◌+◌, ◌/◌, ◌%◌, List, [], ◌∷◌, ◌++◌, Option, none, some, ◌||◌, ltb, ◌==◌, if◌then◌else◌,
  bytes_eq,
}
use nusbip.Host.Info.{DeviceInfo}
use nusbip.Server.Utf8.{is_utf8}

-- A byte goes in front of the first component.
unfoldable pub add_front : ℕ → List (List ℕ) → List (List ℕ)
add_front b [] = (b ∷ []) ∷ []
add_front b (c ∷ cs) = (b ∷ c) ∷ cs

-- The parts between the slashes.
unfoldable pub split_path : List ℕ → List (List ℕ)
unfolding add_front
split_path [] = [] ∷ []
split_path (b ∷ bs) = if b == b'/' then [] ∷ split_path bs else add_front b (split_path bs)

-- Empty parts and `.` are no components.
unfoldable pub last_component : Option (List ℕ) → List (List ℕ) → Option (List ℕ)
last_component last [] = last
last_component last (c ∷ cs) =
    last_component (if bytes_eq c [] || bytes_eq c (b'.' ∷ []) then last else some c) cs

unfoldable pub not_parent : Option (List ℕ) → Option (List ℕ)
not_parent none = none
not_parent (some c) = if bytes_eq c (b'.' ∷ b'.' ∷ []) then none else some c

-- `Path::file_name`: none for a path that ends in `..`.
unfoldable pub file_name : List ℕ → Option (List ℕ)
unfolding split_path last_component not_parent
file_name path = not_parent (last_component none (split_path path))

-- A number of at most three digits, as it is printed.
unfoldable pub decimal : ℕ → List ℕ
decimal n =
    if ltb n 10
    then (n + b'0') ∷ []
    else if ltb n 100
    then (n / 10 + b'0') ∷ (n % 10 + b'0') ∷ []
    else (n / 100 + b'0') ∷ (n / 10 % 10 + b'0') ∷ (n % 10 + b'0') ∷ []

-- `format!("{}-{}-{}", busnum, device_address, 0)`, of bytes.
unfoldable pub numbered : DeviceInfo → List ℕ
unfolding decimal
numbered info = decimal info.busnum ++ (b'-' ∷ (decimal info.device_address ++ (b'-' ∷ b'0' ∷ [])))

unfoldable pub bus_id_of : DeviceInfo → List ℕ
unfolding file_name numbered
bus_id_of info = elim (file_name info.sysfs_path) [
  | some name ↦ if is_utf8 name then name else numbered info
  | none ↦ numbered info
]
