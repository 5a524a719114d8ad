-- ===== src/Program/Stop.antt =====
-- `cleanup` at the end of src/main.rs: the claims that it releases are those on the devices that were
-- exported.
use nusbip.Common.{
  Among, ℕ, List, [], ◌∷◌, some, Bool, true, false, ◌||◌, if◌then◌else◌, bytes_eq, All, ◌≡◌, refl,
  sym, ap, subst, arith,
}
use nusbip.Device.{UsbDevice}
use nusbip.Host.Effects.{Nusb}
use nusbip.Host.Bus.{Bus}
use nusbip.Server.{Server, handles, take_back, cleanup, new_simulated}
use nusbip.Server.Devices.{has, Distinct, bytes_eq_symm}
use nusbip.Server.Laws.{has_added}
use nusbip.Service.{Service, opened}
use nusbip.Program.{Signal, interrupted, failed, stop, MainRun}
use nusbip.Program.Kept.{Keeps, All-added}
use nusbip.Program.Ends.{Holds, TasksReach-Holds}
use nusbip.Export.Claims.{ClaimsSucceed}
use nusbip.Export.Faithful.{offered}
use nusbip.Export.Shared.{DistinctIds, made_lem}
use nusbip.Program.{is_storage}
use nusbip.Program.Handles.{
  found, same_device, handles-Among, owner, get_All, has-Among, elem_handle, elem-Among, Among-elem,
  All-Among,
}

-- What `cleanup` has in its list at last.
take_back-All :
    (P : UsbDevice → Type 0) (used available : List UsbDevice)
    → All P available
    → All P used
    → All P (take_back available used)
unfolding take_back
take_back-All P [] available p q = p
take_back-All P (d ∷ ds) available p (h, q) = take_back-All P ds _ (All-added P d available h p) q

or_none : (x : Bool) → (x || false) ≡ true → x ≡ true
or_none x e = ground arith

kept_or : (c a u : Bool) → (a || (c || u)) ≡ true → ((if c then true else a) || u) ≡ true
kept_or c a u h = ground arith

has-take_back :
    (b : List ℕ) (used available : List UsbDevice)
    → (has b available || has b used) ≡ true
    → has b (take_back available used) ≡ true
unfolding take_back has
has-take_back b [] available e = or_none (has b available) e
has-take_back b (d ∷ ds) available e = has-take_back b ds _ (
    rw (has_added d available b) (
      kept_or (bytes_eq b d.bus_id) (has b available) (has b ds) (rw (bytes_eq_symm b d.bus_id) e)))

pub opened-Holds :
    (server : Server)
    → Distinct server.available
    → server.used ≡ []
    → Holds server.available (opened server)
opened-Holds server dis unused = record {
  lists = record {
    distinct = dis;
    available_from = All-Among server.available server.available (λ d p. p);
    used_from = rw unused tt;
    all_there = λ b there. rw there refl;
  };
  tasks = λ i. tt;
}

bool_eq : (x y : Bool) → (x ≡ true → y ≡ true) → (y ≡ true → x ≡ true) → x ≡ y
bool_eq x y f g = ground arith

-- What the end of the program releases are the handles of the devices, and no device is left.
abbrev pub Releases : List UsbDevice → List ℕ × Server → Type 0
Releases devices (released, s) =
    ((h : ℕ) → elem_handle h released ≡ elem_handle h (handles devices))
    × (s.available ≡ [])
    × (s.used ≡ [])

module _ (devices : List UsbDevice) (s : Server) (dis : Distinct devices)
    (k : Keeps devices s) where
  exported_All : All (λ (d : UsbDevice). Among d devices) (take_back s.available s.used)
  exported_All =
      take_back-All (λ (d : UsbDevice). Among d devices) s.used s.available k.available_from
        k.used_from

  released-exported :
      (h : ℕ) → Among h (handles devices) → Among h (handles (take_back s.available s.used))
  released-exported h p =
      let (d, q, e) = owner h devices p in
      let (x, r, same) = found d.bus_id (take_back s.available s.used) (
        has-take_back d.bus_id s.used s.available (k.all_there d.bus_id (has-Among d devices q))) in
      let from = get_All _ x (take_back s.available s.used) exported_All r in
      handles-Among x h (take_back s.available s.used) r (
        subst (λ (y : UsbDevice). y.device_handler ≡ some h)
          (same_device d x devices dis q from (sym same)) e)

  exported-released :
      (h : ℕ) → Among h (handles (take_back s.available s.used)) → Among h (handles devices)
  exported-released h p =
      let (x, q, e) = owner h (take_back s.available s.used) p in
      handles-Among x h devices (get_All _ x (take_back s.available s.used) exported_All q) e

  cleanup-Releases : Releases devices (cleanup s)
  unfolding cleanup
  cleanup-Releases = (
    λ h.
        bool_eq _ _ (λ e. elem-Among h _ (exported-released h (Among-elem h _ e)))
          (λ e. elem-Among h _ (released-exported h (Among-elem h _ e))),
    refl,
    refl,
  )

  stop-Releases : (signal : Signal) → Releases devices (stop signal s)
  unfolding stop
  stop-Releases interrupted = cleanup-Releases
  stop-Releases failed = cleanup-Releases

-- Whatever connections do until the program is told to stop, and whether it is told by the signal or by an
-- error: it then releases exactly the handles of the devices that it exported at its start, those that
-- a connection holds or a panic has left behind among them, and no device is left, if the devices of
-- the host that pass its filter have distinct bus ids and their interfaces can be claimed.
pub stop_lem :
    (nusb : Nusb) (bus : Bus) (debug : Bool) (w : Service) (signal : Signal)
    (run : MainRun nusb bus debug w)
    → ClaimsSucceed bus
    → DistinctIds (offered is_storage (bus.listed []))
    → Releases run.server.available (stop signal w.server)
unfolding new_simulated
stop_lem nusb bus debug w signal run claims distinct =
    let (fresh, dis) = made_lem nusb bus debug is_storage [] run.server claims distinct run.made in
    let kept : Holds run.server.available w =
      TasksReach-Holds run.server.available nusb debug run.reached
        (opened-Holds run.server dis (ap (λ (t : Server). t.used) fresh)) in
    stop-Releases run.server.available w.server dis kept.lists signal
