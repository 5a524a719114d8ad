-- ===== src/Tests/Program.antt =====
-- A run of src/main.rs with one disk, which a connection imports before the signal comes.
use nusbip.Common.{[], true, ok, ◌≡◌, refl}
use nusbip.Server.{Server}
use nusbip.Export.{
  new_from_host_with_filter, if_listed, filtered, with_nusb_devices, export_device, if_opened,
  if_configured, export_configured, export_interfaces, described, set_strings, set_string,
}
use nusbip.Device.Pool.{get, new_string, new_string_from}
use nusbip.Service.{Service, accepted, accepts, serving, then_is, opened}
use nusbip.Program.{is_storage, any_storage, interrupted, stop, MainRun, start, next}
use nusbip.Program.Stop.{Releases, stop_lem}
use nusbip.Tests.Host.{nusb, bus, claims, made_server}

abbrev server : Server
server = made_server (new_from_host_with_filter nusb bus true is_storage []).0

made : (new_from_host_with_filter nusb bus true is_storage []).0 ≡ ok server
unfolding new_from_host_with_filter if_listed filtered is_storage any_storage with_nusb_devices
    export_device if_opened if_configured export_configured export_interfaces described set_strings
    set_string new_string new_string_from get
made = refl

abbrev waiting : Service
waiting = then_is 3 (serving (accepted [] 9 server [])) server (opened server)

abbrev run : MainRun nusb bus true waiting
run = record { server = server; made = made; reached = next start (accepts [] 9 [] refl) }

stop_example : Releases server.available (stop interrupted waiting.server)
unfolding filtered is_storage any_storage
stop_example = stop_lem nusb bus true waiting interrupted run claims (refl, tt)
