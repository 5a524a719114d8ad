-- ===== src/Sessions.antt =====
-- The connections of src/lib.rs on one server: each has at most one imported device. The calls of
-- `handler` and `server` on the device lists, in any order.
pub mod Moves
pub mod Exclusive
use nusbip.Common.{
  ℕ, List, Option, none, some, ◌==◌, if◌then◌else◌, Bool, false, Outcome, err, ◌≡◌, ◌≢◌,
}
use nusbip.Device.{UsbDevice}
use nusbip.Response.{Response}
use nusbip.Server.{Server, add_device, remove_device, cleanup}
use nusbip.Server.Devices.{has}
use nusbip.Server.Import.{give_back, handle_op_req_import}

-- The imported devices of the connections, by the number of the connection.
pub record System : Type 0 where
  pub server : Server
  pub held : ℕ → Option UsbDevice

abbrev pub update : (ℕ → Option UsbDevice) → ℕ → Option UsbDevice → ℕ → Option UsbDevice
update held i o j = if j == i then o else held j

-- What `handler` does with the outcome of an import: on an error it gives the device back.
unfoldable pub finish_import :
    Outcome Response × Option UsbDevice × Server → Option UsbDevice × Server
finish_import (err e, imported, s) = (none, give_back imported s)
finish_import (_, imported, s) = (imported, s)

-- The release and the import of one `imports` may have steps of others between them: these are
-- `closes`, those steps, and `imports`.
unfoldable pub import_step : ℕ → List ℕ → System → System
unfolding finish_import
import_step i busid a =
    let (imported, s) = finish_import (handle_op_req_import busid (a.held i) a.server) in
    record { server = s; held = update a.held i imported }

-- The end of a connection: `imported_device.take()`, and `release`.
unfoldable pub close_step : ℕ → System → System
unfolding give_back
close_step i a = record { server = give_back (a.held i) a.server; held = update a.held i none }

-- A panic ends the task of a connection: its device is dropped, and nothing is released.
unfoldable pub crash_step : ℕ → System → System
crash_step i a = record a { held = update a.held i none }

-- A program adds a device only of a bus id that is neither available nor held.
pub data Step (a : System) : System → Type 0 where
  imports : (i : ℕ) (busid : List ℕ) → Step a (import_step i busid a)
  closes : (i : ℕ) → Step a (close_step i a)
  crashes : (i : ℕ) → Step a (crash_step i a)
  adds :
      (d : UsbDevice)
      → has d.bus_id a.server.available ≡ false
      → ((i : ℕ) (e : UsbDevice) → a.held i ≡ some e → e.bus_id ≢ d.bus_id)
      → Step a (record a { server = add_device d a.server })
  removes : (b : List ℕ) → Step a (record a { server = (remove_device b a.server).2 })
  cleans : Step a (record a { server = (cleanup a.server).1 })

pub data Reach (a : System) : System → Type 0 where
  start : Reach a a
  next : {b c : System} → Reach a b → Step b c → Reach a c
