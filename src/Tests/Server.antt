-- ===== src/Tests/Server.antt =====
-- The device lists and the connections of src/lib.rs, with one device.
use nusbip.Common.{ℕ, List, [], ◌∷◌, none, some, bytes_eq, ◌≡◌, refl}
use nusbip.Device.{UsbDevice}
use nusbip.Server.{Server, new_simulated, occupy, release}
use nusbip.Server.Utf8.{is_utf8}
use nusbip.Server.Devices.{has, take_device, Distinct}
use nusbip.Server.Import.{handle_op_req_import}
use nusbip.Server.Refines.{
  ServerAction, adds, occupies, releases, removes, act, run_actions, AllNew, status, changes,
  run_actions_lem,
}
use nusbip.Server.Laws.{Occupies, occupy-Occupies}
use nusbip.Sessions.{System, import_step, imports, start, next}
use nusbip.Sessions.Exclusive.{holders_agree}
use nusbip.Tests.Data.{device_named}

abbrev disk : UsbDevice
disk = device_named (49 ∷ [])

abbrev bus_id : List ℕ
bus_id = 49 ∷ 0 ∷ []

abbrev one_disk : Server
one_disk = record { available = disk ∷ []; used = [] }

one_disk-Distinct : Distinct (disk ∷ [])
unfolding has
one_disk-Distinct = (refl, tt)

occupy-Occupies_example : Occupies (49 ∷ []) one_disk (occupy (49 ∷ []) one_disk)
occupy-Occupies_example = occupy-Occupies (49 ∷ []) one_disk one_disk-Distinct

-- The disk is imported and given back, and another device is added and imported.
abbrev actions : List ServerAction
actions =
    occupies (49 ∷ [])
    ∷ releases disk
    ∷ adds (device_named (50 ∷ []))
    ∷ occupies (50 ∷ [])
    ∷ removes (49 ∷ [])
    ∷ []

actions-AllNew : AllNew actions one_disk
unfolding act occupy release take_device has bytes_eq
actions-AllNew = (tt, (tt, (refl, (tt, (tt, tt)))))

run_actions_example :
    Distinct (run_actions actions one_disk).available
    × (status (50 ∷ []) (run_actions actions one_disk)
        ≡ changes (50 ∷ []) actions (status (50 ∷ []) one_disk))
run_actions_example = run_actions_lem actions one_disk (50 ∷ []) one_disk-Distinct actions-AllNew

abbrev fresh : System
fresh = record { server = new_simulated (disk ∷ []); held = λ k. none }

imported : (import_step 3 bus_id fresh).held 3 ≡ some disk
unfolding import_step handle_op_req_import is_utf8 occupy take_device new_simulated bytes_eq
imported = refl

holders_agree_example : ◌≡◌ {A = ℕ} 3 3
holders_agree_example =
    holders_agree (disk ∷ []) (import_step 3 bus_id fresh) 3 3 disk disk one_disk-Distinct
      (next start (imports 3 bus_id)) imported imported refl
