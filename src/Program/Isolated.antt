-- ===== src/Program/Isolated.antt =====
-- Which devices of the host the connections of src/main.rs reach.
use nusbip.Common.{
  Among, ℕ, List, Option, none, some, Bool, ◌≡◌, ◌≢◌, refl, sym, ap, subst, ◌∙◌, inl, inr,
}
use nusbip.Endpoint.{UsbInterface}
use nusbip.Device.{UsbDevice}
use nusbip.Device.Calls.{About, OpensId}
use nusbip.Host.Effects.{
  open_device, active_configuration, attach_kernel_driver, claim_interface, reset_device, Nusb,
  Call, interface_target, device_target, control_in, control_out, open_endpoint, read_exact,
  transfer_blocking, write_all, flush, detach_kernel_driver, set_configuration,
}
use nusbip.Host.Calls.{OnInterface, OnDevice, Extends, Extends-weaken}
use nusbip.Handler.{Connection}
use nusbip.Server.{new_simulated}
use nusbip.Server.Devices.{Distinct}
use nusbip.Service.{round, Service, serving, on_server, held_by, opened, ServiceReach, task_steps}
use nusbip.Service.Calls.{ForDevice, after_round, round-Extends}
use nusbip.Service.Projects.{tasks_apart}
use nusbip.Program.{TasksReach, start, next}
use nusbip.Program.Kept.{HeldFrom}
use nusbip.Program.Ends.{TasksReach-Holds}
use nusbip.Program.Stop.{opened-Holds}

-- Two devices of different bus ids have no handle in common.
abbrev pub SharesNothing : UsbDevice → UsbDevice → Type 0
SharesNothing d e =
    ((i k : UsbInterface) → Among i d.interfaces → Among k e.interfaces → i.handler ≢ k.handler)
    × ((h : ℕ) → d.device_handler ≡ some h → e.device_handler ≢ some h)

abbrev pub AllShareNothing : List UsbDevice → Type 0
AllShareNothing devices =
    (d e : UsbDevice) → Among d devices → Among e devices → d.bus_id ≢ e.bus_id → SharesNothing d e

one_interface : (i k : ℕ) (c : Call) → OnInterface i c → OnInterface k c → i ≡ k
one_interface i k (control_in (interface_target j) c) p q = sym p ∙ q
one_interface i k (control_out (interface_target j) c) p q = sym p ∙ q
one_interface i k (open_endpoint j a t d) p q = sym p ∙ q
one_interface i k (read_exact j a n) p q = sym p ∙ q
one_interface i k (transfer_blocking j a n) p q = sym p ∙ q
one_interface i k (write_all j a bytes) p q = sym p ∙ q
one_interface i k (flush j a) p q = sym p ∙ q
one_interface i k _ p q = absurd p

one_device : (h k : ℕ) (c : Call) → OnDevice h c → OnDevice k c → h ≡ k
one_device h k (control_in (device_target j) c) p q = sym p ∙ q
one_device h k (control_out (device_target j) c) p q = sym p ∙ q
one_device h k (active_configuration j) p q = sym p ∙ q
one_device h k (attach_kernel_driver j n) p q = sym p ∙ q
one_device h k (detach_kernel_driver j n) p q = sym p ∙ q
one_device h k (set_configuration j n) p q = sym p ∙ q
one_device h k (claim_interface j n) p q = sym p ∙ q
one_device h k (reset_device j) p q = sym p ∙ q
one_device h k _ p q = absurd p

of_one_kind : (i h : ℕ) (c : Call) → OnInterface i c → OnDevice h c → ⊥
of_one_kind i h (control_in (interface_target j) c) p q = absurd q
of_one_kind i h (control_out (interface_target j) c) p q = absurd q
of_one_kind i h (open_endpoint j a t d) p q = absurd q
of_one_kind i h (read_exact j a n) p q = absurd q
of_one_kind i h (transfer_blocking j a n) p q = absurd q
of_one_kind i h (write_all j a bytes) p q = absurd q
of_one_kind i h (flush j a) p q = absurd q
of_one_kind i h _ p q = absurd p

one_opened : (x y : List ℕ) (c : Call) → OpensId x c → OpensId y c → x ≡ y
one_opened x y (open_device info) p q = sym p ∙ q
one_opened x y _ p q = absurd p

not_interface_opened : (i : ℕ) (x : List ℕ) (c : Call) → OnInterface i c → OpensId x c → ⊥
not_interface_opened i x (open_device info) p q = absurd p
not_interface_opened i x _ p q = absurd q

not_device_opened : (h : ℕ) (x : List ℕ) (c : Call) → OnDevice h c → OpensId x c → ⊥
not_device_opened h x (open_device info) p q = absurd p
not_device_opened h x _ p q = absurd q

not_both :
    (d e : UsbDevice) (c : Call) → d.bus_id ≢ e.bus_id → SharesNothing d e → About d c → ¬ About e c
not_both d e c ne (apart, handles) (inl (i, own, p)) (inl (k, own', q)) =
    apart i k own own' (one_interface i.handler k.handler c p q)
not_both d e c ne (apart, handles) (inl (i, own, p)) (inr (inl (h, own', q))) =
    of_one_kind i.handler h c p q
not_both d e c ne (apart, handles) (inl (i, own, p)) (inr (inr q)) =
    not_interface_opened i.handler e.bus_id c p q
not_both d e c ne (apart, handles) (inr (inl (h, own, p))) (inl (k, own', q)) =
    of_one_kind k.handler h c q p
not_both d e c ne (apart, handles) (inr (inl (h, own, p))) (inr (inl (k, own', q))) =
    handles h own (subst (λ (x : ℕ). e.device_handler ≡ some x) (sym (one_device h k c p q)) own')
not_both d e c ne (apart, handles) (inr (inl (h, own, p))) (inr (inr q)) =
    not_device_opened h e.bus_id c p q
not_both d e c ne (apart, handles) (inr (inr p)) (inl (k, own', q)) =
    not_interface_opened k.handler d.bus_id c q p
not_both d e c ne (apart, handles) (inr (inr p)) (inr (inl (k, own', q))) =
    not_device_opened k d.bus_id c q p
not_both d e c ne (apart, handles) (inr (inr p)) (inr (inr q)) =
    ne (one_opened d.bus_id e.bus_id c p q)

TasksReach-ServiceReach :
    {nusb : Nusb} {debug : Bool} {w w' : Service}
    → TasksReach nusb debug w w'
    → ServiceReach nusb debug w w'
TasksReach-ServiceReach start = ServiceReach.start
TasksReach-ServiceReach (next r t) = ServiceReach.next (TasksReach-ServiceReach r) (task_steps t)

module _ (nusb : Nusb) (debug : Bool) (devices : List UsbDevice) (w : Service) (i j : ℕ)
    (dis : Distinct devices) (apart : AllShareNothing devices)
    (reached : TasksReach nusb debug (opened (new_simulated devices)) w) where
  held : (k : ℕ) → HeldFrom devices (held_by (w.life k))
  unfolding new_simulated
  held k =
      (TasksReach-Holds devices nusb debug reached
          (opened-Holds (new_simulated devices) dis refl)).tasks
        k

  -- The calls about what one task holds are not about what another one holds.
  elsewhere :
      (o : Option UsbDevice) (e : UsbDevice) (c : Call)
      → held_by (w.life i) ≡ o
      → HeldFrom devices o
      → held_by (w.life j) ≡ some e
      → Among e devices
      → i ≢ j
      → ForDevice o c
      → ¬ About e c
  elsewhere none e c mine own theirs own' ne p = absurd p
  elsewhere (some d) e c mine own theirs own' ne p =
      let differ : (d.bus_id ≢ e.bus_id) = λ same. ne (
        tasks_apart nusb debug devices w i j d e dis (TasksReach-ServiceReach reached) mine theirs
          same) in
      not_both d e c differ (apart d e own own' differ) p

  -- While connections run on a server of devices of distinct bus ids that have no handle in common: a round
  -- of one connection makes no call of the USB library that names a handle of a device that another
  -- connection has imported, or of an interface of it, and opens no device of its bus id.
  pub tasks_isolated :
      (c : Connection) (e : UsbDevice)
      → w.life i ≡ serving c
      → held_by (w.life j) ≡ some e
      → i ≢ j
      → Extends
          (λ (call : Call). ¬ About e call)
          c.calls
          (after_round (round nusb debug (on_server w.server c))).calls
  tasks_isolated c e life theirs ne =
      Extends-weaken
        (λ call p.
          elsewhere c.imported e call mine (subst (HeldFrom devices) mine (held i)) theirs
            (subst (HeldFrom devices) theirs (held j)) ne p)
        (round-Extends nusb debug (on_server w.server c))
    where
      mine : held_by (w.life i) ≡ c.imported
      mine = ap held_by life
