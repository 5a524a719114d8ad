-- ===== src/Program/Ends.antt =====
-- The connections that src/main.rs serves until it is told to stop: their steps keep the devices that were
-- exported in the lists or in their tasks.
use nusbip.Common.{ℕ, List, Option, none, Bool, ◌==◌, ◌≡◌, subst, Bool-cases, inl, inr}
use nusbip.Device.{UsbDevice}
use nusbip.Host.Effects.{Nusb}
use nusbip.Server.{Server}
use nusbip.Handler.{drop_device}
use nusbip.Service.{
  goes_on, panics, returns, Life, ended, serving, returned, Service, then_is, TaskStep, accepts,
  continues, leaves, dies, finishes, held_by,
}
use nusbip.Service.Rounds.{Local, closes}
use nusbip.Service.Projects.{at_round}
use nusbip.Program.{TasksReach, start, next}
use nusbip.Program.Kept.{Keeps, HeldFrom, Local-Keeps}

-- The lists and all tasks have only devices that were exported.
pub record Holds (devices : List UsbDevice) (w : Service) : Type 0 where
  pub lists : Keeps devices w.server
  pub tasks : (i : ℕ) → HeldFrom devices (held_by (w.life i))

module _ (devices : List UsbDevice) (nusb : Nusb) (debug : Bool) where
  then-Holds :
      (w : Service) (i : ℕ) (l : Life) (s' : Server)
      → Holds devices w
      → Keeps devices s' × HeldFrom devices (held_by l)
      → Holds devices (then_is i l s' w)
  then-Holds w i l s' x (k, h) = record {
    lists = k;
    tasks = λ j. elim (Bool-cases (j == i)) [ inl e ↦ rw e h | inr e ↦ rw e (x.tasks j) ];
  }

  moved-Holds :
      (w : Service) (i : ℕ) (l l' : Life) (s' : Server) (o' : Option UsbDevice)
      → w.life i ≡ l
      → Local (held_by l) w.server o' s'
      → Holds devices w
      → Keeps devices s' × HeldFrom devices o'
  moved-Holds w i l l' s' o' e move x =
      Local-Keeps devices move (subst (λ (m : Life). HeldFrom devices (held_by m)) e (x.tasks i))
        x.lists

  TaskStep-Holds :
      {i : ℕ} {w w' : Service} → TaskStep nusb debug i w w' → Holds devices w → Holds devices w'
  unfolding drop_device
  TaskStep-Holds {i} {w} (accepts input writes calls e) x =
      then-Holds w i _ w.server x (x.lists, tt)
  TaskStep-Holds {i} {w} (continues c c' e f) x = then-Holds w i (serving c') c'.server x (
      moved-Holds w i (serving c) (serving c') c'.server c'.imported e
        (at_round nusb debug w i c (goes_on c') e f) x)
  TaskStep-Holds {i} {w} (leaves c c' o e f) x = then-Holds w i (returned c') c'.server x (
      moved-Holds w i (serving c) (returned c') c'.server c'.imported e
        (at_round nusb debug w i c (returns o c') e f) x)
  TaskStep-Holds {i} {w} (dies c c' e f) x = then-Holds w i ended c'.server x (
    (moved-Holds w i (serving c) ended c'.server c'.imported e
        (at_round nusb debug w i c (panics c') e f) x).0,
    tt,
  )
  TaskStep-Holds {i} {w} (finishes c e) x =
      then-Holds w i ended _ x (moved-Holds w i (returned c) ended _ none e closes x)

  pub TasksReach-Holds :
      {w w' : Service} → TasksReach nusb debug w w' → Holds devices w → Holds devices w'
  TasksReach-Holds start x = x
  TasksReach-Holds (next r t) x = TaskStep-Holds t (TasksReach-Holds r x)
