-- ===== src/Program.antt =====
-- src/main.rs: the program exports the mass storage devices of the host, serves connections, and cleans up
-- once it is told to stop. examples/host.rs is the same program.
pub mod Kept
pub mod Ends
pub mod Handles
pub mod Stop
pub mod Isolated
use nusbip.Common.{ℕ, List, [], ◌∷◌, Bool, false, ◌||◌, ◌==◌, Outcome, ok, err, ◌≡◌}
use nusbip.Host.Info.{DeviceInfo}
use nusbip.Host.Effects.{Nusb, Call}
use nusbip.Host.Bus.{Bus}
use nusbip.Server.{Server, cleanup}
use nusbip.Export.{new_from_host_with_filter}
use nusbip.Service.{Service, TaskStep, opened}

-- `d.interfaces().any(|i| i.class() == 0x08)`.
unfoldable pub any_storage : List ℕ → Bool
any_storage [] = false
any_storage (class ∷ classes) = class == 0x08 || any_storage classes

unfoldable pub is_storage : DeviceInfo → Bool
unfolding any_storage
is_storage info = any_storage info.interface_classes

-- What `signal::ctrl_c().await` ends in: the signal, or an error.
pub data Signal : Type 0 where
  interrupted failed : Signal

-- The server is cleaned up for either. The handles whose claims are released, and the server.
unfoldable pub stop : Signal → Server → List ℕ × Server
stop interrupted s = cleanup s
stop failed s = cleanup s

-- The tasks of the connections run until then; the program itself makes no call on the server.
pub data TasksReach (nusb : Nusb) (debug : Bool) (w : Service) : Service → Type 0 where
  start : TasksReach nusb debug w w
  next :
      {i : ℕ} {v u : Service}
      → TasksReach nusb debug w v
      → TaskStep nusb debug i v u
      → TasksReach nusb debug w u

-- A run of `main` up to the signal.
pub record MainRun (nusb : Nusb) (bus : Bus) (debug : Bool) (w : Service) : Type 0 where
  pub server : Server
  pub made : (new_from_host_with_filter nusb bus debug is_storage []).0 ≡ ok server
  pub reached : TasksReach nusb debug (opened server) w
