-- ===== src/Tests/Service.antt =====
-- The tasks of `server` in src/lib.rs, with two disks and two connections, each of which imports one.
use nusbip.Common.{ℕ, List, [], ◌∷◌, ◌++◌, some, true, bytes_eq, replicate, ◌≡◌, refl}
use nusbip.Device.{UsbDevice}
use nusbip.Device.Names.{default_device}
use nusbip.Device.Bytes.{device_to_bytes}
use nusbip.Protocol.Read.{read_from_socket, check_version, read_body, read_import}
use nusbip.Protocol.Input.{read_u16, read_u32, read_exact}
use nusbip.Response.{response_to_bytes, op_rep_import_success, imported_to_bytes}
use nusbip.Server.{Server, new_simulated, occupy}
use nusbip.Server.Devices.{has, take_device, Distinct}
use nusbip.Server.Import.{handle_op_req_import}
use nusbip.Server.Utf8.{is_utf8}
use nusbip.Host.Effects.{Nusb, failed}
use nusbip.Handler.{Connection, dispatch, write_to_socket, write_all, reply_import}
use nusbip.Service.{
  Round, goes_on, panics, hangs, returns, round, dispatched, Service, serving, accepted, accepts,
  continues, then_is, on_server, task_steps, held_by, opened,
}
use nusbip.Service.Projects.{tasks_apart}
use nusbip.Tests.Data.{device_named, mass_storage}
use nusbip.Program.{TasksReach, start, next}
use nusbip.Program.Isolated.{SharesNothing, AllShareNothing, tasks_isolated}
use nusbip.Service.Calls.{after_round}
use nusbip.Device.Calls.{About}
use nusbip.Host.Calls.{Extends}
use nusbip.Service.{ServiceReach}
use nusbip.Endpoint.{UsbInterface}
use nusbip.Common.{Among, subst, ◌≢◌, inl, inr, arith, sym, ◌∙◌, ap}
use nusbip.Host.Effects.{Call}

abbrev no_host : Nusb
no_host = record {
  answer = λ calls call. failed 19;
  max_packet_size = λ i address. 512;
  interface_number = λ handle. 0;
}

abbrev disk : UsbDevice
disk = device_named (49 ∷ [])

abbrev other : UsbDevice
other = record (device_named (50 ∷ [])) { interfaces = record mass_storage { handler = 1 } ∷ [] }

abbrev disks : List UsbDevice
disks = disk ∷ other ∷ []

-- The import of the disk, and the first byte of what follows.
abbrev input : List ℕ
input = 1 ∷ 0x11 ∷ 0x80 ∷ 3 ∷ 0 ∷ 0 ∷ 0 ∷ 0 ∷ 49 ∷ (replicate 31 0 ++ (1 ∷ []))

abbrev two_disks : Server
two_disks = new_simulated disks

abbrev connection : Connection
connection = accepted input 9 two_disks []

abbrev next_connection : Round → Connection
next_connection (goes_on c) = c
next_connection (panics c) = c
next_connection (hangs c) = c
next_connection (returns o c) = c

abbrev after_import : Connection
after_import = next_connection (round no_host true (on_server two_disks connection))

abbrev waiting : Service
waiting = then_is 3 (serving connection) two_disks (opened two_disks)

abbrev connected : Service
connected = then_is 3 (serving after_import) after_import.server waiting

imports_disk : round no_host true (on_server two_disks connection) ≡ goes_on after_import
unfolding round dispatched read_from_socket read_u16 check_version read_body read_import read_u32
    read_exact dispatch handle_op_req_import is_utf8 occupy take_device bytes_eq write_to_socket
    write_all reply_import response_to_bytes op_rep_import_success imported_to_bytes device_to_bytes
    new_simulated default_device
imports_disk = refl

has_disk : held_by (connected.life 3) ≡ some disk
unfolding round dispatched read_from_socket read_u16 check_version read_body read_import read_u32
    read_exact dispatch handle_op_req_import is_utf8 occupy take_device bytes_eq write_to_socket
    write_all reply_import response_to_bytes op_rep_import_success imported_to_bytes device_to_bytes
    new_simulated default_device
has_disk = refl

disks-Distinct : Distinct disks
unfolding has bytes_eq
disks-Distinct = (refl, (refl, tt))

reached : TasksReach no_host true (opened two_disks) connected
reached =
    next (next start (accepts input 9 [] refl))
      (continues connection after_import refl imports_disk)

tasks_apart_example : ◌≡◌ {A = ℕ} 3 3
tasks_apart_example =
    tasks_apart no_host true disks connected 3 3 disk disk disks-Distinct
      (ServiceReach.next
        (ServiceReach.next ServiceReach.start (task_steps (accepts input 9 [] refl)))
        (task_steps (continues connection after_import refl imports_disk)))
      has_disk has_disk refl

-- The import of the other disk, and a read of three bytes from it.
abbrev other_input : List ℕ
other_input =
    1
    ∷ 0x11
    ∷ 0x80
    ∷ 3
    ∷ 0
    ∷ 0
    ∷ 0
    ∷ 0
    ∷ 50
    ∷ (replicate 31 0
        ++ (0
            ∷ 0
            ∷ 0
            ∷ 1
            ∷ 0
            ∷ 0
            ∷ 0
            ∷ 7
            ∷ 0
            ∷ 0
            ∷ 0
            ∷ 2
            ∷ 0
            ∷ 0
            ∷ 0
            ∷ 1
            ∷ 0
            ∷ 0
            ∷ 0
            ∷ 1
            ∷ 0
            ∷ 0
            ∷ 0
            ∷ 0
            ∷ 0
            ∷ 0
            ∷ 0
            ∷ 3
            ∷ replicate 20 0))

abbrev other_connection : Connection
other_connection = accepted other_input 9 after_import.server []

abbrev both_waiting : Service
both_waiting = then_is 4 (serving other_connection) after_import.server connected

abbrev after_both : Connection
after_both = next_connection (round no_host true (on_server after_import.server other_connection))

abbrev both_connected : Service
both_connected = then_is 4 (serving after_both) after_both.server both_waiting

imports_other :
    round no_host true (on_server after_import.server other_connection) ≡ goes_on after_both
unfolding round dispatched read_from_socket read_u16 check_version read_body read_import read_u32
    read_exact dispatch handle_op_req_import is_utf8 occupy take_device bytes_eq write_to_socket
    write_all reply_import response_to_bytes op_rep_import_success imported_to_bytes device_to_bytes
    new_simulated default_device has
imports_other = refl

has_other : held_by (both_connected.life 4) ≡ some other
unfolding round dispatched read_from_socket read_u16 check_version read_body read_import read_u32
    read_exact dispatch handle_op_req_import is_utf8 occupy take_device bytes_eq write_to_socket
    write_all reply_import response_to_bytes op_rep_import_success imported_to_bytes device_to_bytes
    new_simulated default_device has
has_other = refl

still_has_disk : held_by (both_connected.life 3) ≡ some disk
unfolding round dispatched read_from_socket read_u16 check_version read_body read_import read_u32
    read_exact dispatch handle_op_req_import is_utf8 occupy take_device bytes_eq write_to_socket
    write_all reply_import response_to_bytes op_rep_import_success imported_to_bytes device_to_bytes
    new_simulated default_device has
still_has_disk = refl

only_apart :
    (m n i k : UsbInterface)
    → m.handler ≢ n.handler
    → Among i (m ∷ [])
    → Among k (n ∷ [])
    → i.handler ≢ k.handler
only_apart m n i k ne (inl a) (inl b) e =
    ne (ap (λ (x : UsbInterface). x.handler) (sym a) ∙ e ∙ ap (λ (x : UsbInterface). x.handler) b)
only_apart m n i k ne (inr a) b e = absurd a
only_apart m n i k ne (inl a) (inr b) e = absurd b

disk-other : SharesNothing disk other
unfolding default_device
disk-other = (
  λ i k. only_apart mass_storage (record mass_storage { handler = 1 }) i k (omega arith),
  λ h e f. ground arith,
)

other-disk : SharesNothing other disk
unfolding default_device
other-disk = (
  λ i k. only_apart (record mass_storage { handler = 1 }) mass_storage i k (omega arith),
  λ h e f. ground arith,
)

disks-ShareNothing : AllShareNothing disks
disks-ShareNothing d e (inl p) (inl q) ne =
    absurd (ne (ap (λ (x : UsbDevice). x.bus_id) (p ∙ sym q)))
disks-ShareNothing d e (inl p) (inr (inl q)) ne =
    subst (λ (x : UsbDevice). SharesNothing x e) (sym p)
      (subst (SharesNothing disk) (sym q) disk-other)
disks-ShareNothing d e (inr (inl p)) (inl q) ne =
    subst (λ (x : UsbDevice). SharesNothing x e) (sym p)
      (subst (SharesNothing other) (sym q) other-disk)
disks-ShareNothing d e (inr (inl p)) (inr (inl q)) ne =
    absurd (ne (ap (λ (x : UsbDevice). x.bus_id) (p ∙ sym q)))
disks-ShareNothing d e (inl p) (inr (inr q)) ne = absurd q
disks-ShareNothing d e (inr (inl p)) (inr (inr q)) ne = absurd q
disks-ShareNothing d e (inr (inr p)) q ne = absurd p

tasks_isolated_example :
    Extends
      (λ (call : Call). ¬ About disk call)
      after_both.calls
      (after_round (round no_host true (on_server after_both.server after_both))).calls
tasks_isolated_example =
    tasks_isolated no_host true disks both_connected 4 3 disks-Distinct disks-ShareNothing
      (next {i = 4} (next {i = 4} reached (accepts other_input 9 [] refl))
        (continues other_connection after_both refl imports_other))
      after_both disk refl still_has_disk (omega arith)
