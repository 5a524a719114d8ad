-- ===== src/Units/Others.antt =====
-- The unit tests of src/lib.rs, src/device.rs, src/hid.rs and src/cdc.rs.
use nusbip.Common.{
  ℕ, List, [], ◌∷◌, Option, none, some, Bool, true, false, ◌&&◌, ◌==◌, bytes_eq, Outcome, ok, err,
  panic, hang, bind, length, u16_be, u32_be, ◌≡◌, refl,
}
use nusbip.Device.{UsbDevice}
use nusbip.Device.Names.{
  new_device, set_configuration_name, set_manufacturer_name, set_product_name, set_serial_number,
}
use nusbip.Device.Pool.{get, new_string}
use nusbip.Verify.{verify_descriptor}
use nusbip.Hid.{new_keyboard, keyboard_class_descriptor}
use nusbip.Cdc.{cdc_class_descriptor}
use nusbip.Host.Effects.{Nusb}
use nusbip.Server.{Server, new_simulated}
use nusbip.Server.Refines.{ServerAction, adds, removes, run_actions}
use nusbip.Handler.{
  Connection, handler, serve, dispatch, reply, write_to_socket, write_all, drop_device, read_end,
}
use nusbip.Server.Import.{handle_op_req_devlist, give_back}
use nusbip.Protocol.Read.{read_from_socket, check_version, read_body, read_devlist}
use nusbip.Protocol.Input.{read_u16, read_u32}
use nusbip.Common.Outcomes.{kind}
use nusbip.Protocol.Command.{req_devlist, command_to_bytes}
use nusbip.Response.{devices_to_bytes, response_to_bytes, op_rep_devlist_response}
use nusbip.Units.{writes}
use nusbip.Device.Pool.{remove}
use nusbip.Server.Refines.{act}
use nusbip.Server.{remove_device}
use nusbip.Server.{add_device}
use nusbip.Server.Devices.{take_device}

abbrev test_string : List ℕ
test_string = b't' ∷ b'e' ∷ b's' ∷ b't' ∷ []

-- `is_some()` of what a name was, and the device.
abbrev was_named :
    {A : Type 0} → Outcome (Option (List ℕ) × UsbDevice) → (UsbDevice → Outcome A) → Outcome A
was_named (ok (some old, d)) f = f d
was_named (ok (none, d)) f = panic
was_named (err e) f = err e
was_named panic f = panic
was_named hang f = hang

abbrev is_test : Option (List ℕ) → Bool
is_test (some s) = bytes_eq s test_string
is_test none = false

abbrev holds : Outcome Bool → Bool
holds (ok b) = b
holds _ = false

abbrev test_set_string_descriptors : Bool
test_set_string_descriptors = holds (
    bind (new_device true 0) λ d0. was_named (set_configuration_name true test_string d0) λ d1.
      was_named (set_manufacturer_name true test_string d1) λ d2.
        was_named (set_product_name true test_string d2) λ d3.
          was_named (set_serial_number true test_string d3) λ d4. ok (
            length d0.string_pool == 4
            && length d4.string_pool == 4
            && is_test (get 1 d4.string_pool)
            && is_test (get 2 d4.string_pool)
            && is_test (get 3 d4.string_pool)
            && is_test (get 4 d4.string_pool)))

test_set_string_descriptors_lem : test_set_string_descriptors ≡ true
unfolding new_device new_string get set_configuration_name remove set_manufacturer_name
    set_product_name set_serial_number bytes_eq
test_set_string_descriptors_lem = refl

abbrev is_accepted : List ℕ → Bool
is_accepted desc = elim (verify_descriptor desc) as (λ w. Bool) [
  | ok u ↦ true
  | err e ↦ false
  | panic ↦ false
  | hang ↦ false
]

abbrev keyboard_desc_verify : Bool
keyboard_desc_verify = is_accepted (keyboard_class_descriptor new_keyboard)

keyboard_desc_verify_lem : keyboard_desc_verify ≡ true
unfolding new_keyboard verify_descriptor keyboard_class_descriptor
keyboard_desc_verify_lem = refl

abbrev cdc_desc_verify : Bool
cdc_desc_verify = is_accepted cdc_class_descriptor

cdc_desc_verify_lem : cdc_desc_verify ≡ true
unfolding cdc_class_descriptor verify_descriptor
cdc_desc_verify_lem = refl

-- `MockSocket::new`, and the server; each write is taken.
abbrev mock_socket : Outcome (List ℕ) → Server → Connection
mock_socket bytes s = record {
  server = s;
  imported = none;
  input = elim bytes as (λ w. List ℕ) [ ok b ↦ b | err e ↦ [] | panic ↦ [] | hang ↦ [] ];
  output = [];
  accepts = 1;
  calls = [];
}

abbrev req_empty_devlist : Nusb → Bool
req_empty_devlist nusb =
    writes (response_to_bytes true (op_rep_devlist_response []))
      (handler nusb true
        (mock_socket (command_to_bytes true (req_devlist 0)) (new_simulated []))).1.output

req_empty_devlist_lem : (nusb : Nusb) → req_empty_devlist nusb ≡ true
unfolding handler serve dispatch reply write_to_socket write_all handle_op_req_devlist
    response_to_bytes op_rep_devlist_response devices_to_bytes bytes_eq u16_be u32_be
    read_from_socket read_u16 read_u32 check_version read_body read_devlist command_to_bytes
    new_simulated drop_device read_end kind give_back
req_empty_devlist_lem nusb = refl

abbrev is_empty : Outcome Server → Bool
is_empty (ok s) = length s.available == 0
is_empty _ = false

-- Additions of `UsbDevice::new` of each index, then removals of the same, in the order in which the
-- tasks are spawned.
abbrev removals : List ℕ → Outcome (List ServerAction)
removals [] = ok []
removals (i ∷ is) =
    bind (new_device true i) λ d. bind (removals is) λ rest. ok (removes d.bus_id ∷ rest)

abbrev additions : List ℕ → List ServerAction → Outcome (List ServerAction)
additions [] then_do = ok then_do
additions (i ∷ is) then_do =
    bind (new_device true i) λ d. bind (additions is then_do) λ rest. ok (adds d ∷ rest)

abbrev add_and_remove_10_devices : Bool
add_and_remove_10_devices =
    let indices : List ℕ = 0 ∷ 1 ∷ 2 ∷ 3 ∷ 4 ∷ 5 ∷ 6 ∷ 7 ∷ 8 ∷ 9 ∷ [] in
    is_empty (
      bind (removals indices)
        λ rs. bind (additions indices rs) λ row. ok (run_actions row (new_simulated [])))

add_and_remove_10_devices_lem : add_and_remove_10_devices ≡ true
unfolding new_device new_string get run_actions act remove_device take_device add_device
    new_simulated bytes_eq
add_and_remove_10_devices_lem = refl
