-- ===== src/Service.antt =====
-- `server` of src/lib.rs: the tasks of its connections on one server, and the calls of the program on that
-- server, in any order. A step of a task is one round of the loop of `handler`, or what comes after it.
pub mod Rounds
pub mod Calls
pub mod Projects
use nusbip.Common.{
  ℕ, List, [], Option, none, some, Bool, ◌==◌, if◌then◌else◌, Outcome, ok, err, panic, hang, kind,
  ◌≡◌, ◌≢◌, false,
}
use nusbip.Device.{UsbDevice}
use nusbip.Protocol.Read.{read_from_socket}
use nusbip.Host.Effects.{Nusb, Call}
use nusbip.Server.{Server, add_device, remove_device, cleanup}
use nusbip.Server.Devices.{has}
use nusbip.Handler.{Connection, drop_device, dispatch, read_end}

-- How one round of the loop ends: with the next, with a return, or not at all.
pub data Round : Type 0 where
  goes_on panics hangs : Connection → Round
  returns : Outcome (Unit {0}) → Connection → Round

unfoldable pub dispatched : Outcome (Unit {0}) → Connection → Round
dispatched (ok _) c = goes_on c
dispatched (err e) c = returns (err e) c
dispatched panic c = panics c
dispatched hang c = hangs c

-- One round of the loop of `handler`.
unfoldable pub round : Nusb → Bool → Connection → Round
unfolding dispatched drop_device read_end
round nusb debug c = elim (read_from_socket debug c.input) [
  | err e ↦ returns (read_end (kind e) e) (drop_device c)
  | panic ↦ panics c
  | hang ↦ hangs c
  | ok (command, rest) ↦
      (let (outcome, c') = dispatch nusb debug command (record c { input = rest }) in
        dispatched outcome c')
]

-- The task of a connection: in the loop, behind it, or at its end. The server of its connection is that
-- of its last step.
pub data Life : Type 0 where
  unborn ended : Life
  serving returned : Connection → Life

pub record Service : Type 0 where
  pub server : Server
  pub life : ℕ → Life

abbrev pub set_life : ℕ → Life → (ℕ → Life) → ℕ → Life
set_life i l life j = if j == i then l else life j

-- A connection on the server as it is now.
abbrev pub on_server : Server → Connection → Connection
on_server s c = record c { server = s }

abbrev pub then_is : ℕ → Life → Server → Service → Service
then_is i l s w = record { server = s; life = set_life i l w.life }

-- `let mut imported_device = Box::new(None)`; the peer is what it sends and how many writes it takes.
abbrev pub accepted : (input : List ℕ) (accepts : ℕ) → Server → List Call → Connection
accepted input accepts s calls = record {
  server = s;
  imported = none;
  input = input;
  output = [];
  accepts = accepts;
  calls = calls;
}

-- A step of the task of the connection `i`. A panic ends the task at once.
pub data TaskStep (nusb : Nusb) (debug : Bool) (i : ℕ) (w : Service) : Service → Type 0 where
  accepts :
      (input : List ℕ) (writes : ℕ) (calls : List Call)
      → w.life i ≡ unborn
      → TaskStep nusb debug i w
          (then_is i (serving (accepted input writes w.server calls)) w.server w)
  continues :
      (c c' : Connection)
      → w.life i ≡ serving c
      → round nusb debug (on_server w.server c) ≡ goes_on c'
      → TaskStep nusb debug i w (then_is i (serving c') c'.server w)
  leaves :
      (c c' : Connection) (o : Outcome (Unit {0}))
      → w.life i ≡ serving c
      → round nusb debug (on_server w.server c) ≡ returns o c'
      → TaskStep nusb debug i w (then_is i (returned c') c'.server w)
  dies :
      (c c' : Connection)
      → w.life i ≡ serving c
      → round nusb debug (on_server w.server c) ≡ panics c'
      → TaskStep nusb debug i w (then_is i ended c'.server w)
  finishes :
      (c : Connection)
      → w.life i ≡ returned c
      → TaskStep nusb debug i w (then_is i ended (drop_device (on_server w.server c)).server w)

-- The device that a task holds.
abbrev pub held_by : Life → Option UsbDevice
held_by (serving c) = c.imported
held_by (returned c) = c.imported
held_by _ = none

-- A step of a task, or a call of the program. The program adds a device only of a bus id that is
-- neither available nor held.
pub data ServiceStep (nusb : Nusb) (debug : Bool) (w : Service) : Service → Type 0 where
  task_steps : {i : ℕ} {w' : Service} → TaskStep nusb debug i w w' → ServiceStep nusb debug w w'
  adds :
      (d : UsbDevice)
      → has d.bus_id w.server.available ≡ false
      → ((i : ℕ) (e : UsbDevice) → held_by (w.life i) ≡ some e → e.bus_id ≢ d.bus_id)
      → ServiceStep nusb debug w (record w { server = add_device d w.server })
  removes :
      (b : List ℕ) → ServiceStep nusb debug w (record w { server = (remove_device b w.server).2 })
  cleans : ServiceStep nusb debug w (record w { server = (cleanup w.server).1 })

pub data ServiceReach (nusb : Nusb) (debug : Bool) (w : Service) : Service → Type 0 where
  start : ServiceReach nusb debug w w
  next :
      {v u : Service}
      → ServiceReach nusb debug w v
      → ServiceStep nusb debug v u
      → ServiceReach nusb debug w u

-- A server before its first connection.
abbrev pub opened : Server → Service
opened s = record { server = s; life = λ i. unborn }
