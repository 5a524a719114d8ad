-- ===== src/Export/Shared.antt =====
-- Connections to a server that src/lib.rs makes from the host.
use nusbip.Common.{
  ℕ, List, [], ◌∷◌, none, some, Bool, false, ◌||◌, bytes_eq, Outcome, ok, ◌≡◌, refl, sym, ◌∙◌, ap,
  subst, arith,
}
use nusbip.Device.{UsbDevice}
use nusbip.Host.Info.{DeviceInfo}
use nusbip.Host.Effects.{Nusb, Call}
use nusbip.Host.Bus.{Bus}
use nusbip.Server.{Server, new_simulated}
use nusbip.Server.Devices.{has, Distinct}
use nusbip.Sessions.{System, Reach}
use nusbip.Sessions.Exclusive.{holders_agree}
use nusbip.Export.{new_from_host_with_filter}
use nusbip.Export.Path.{bus_id_of}
use nusbip.Export.Claims.{ClaimsSucceed}
use nusbip.Export.Faithful.{
  Exports, nothing, not_opened, not_configured, shown, offered, new_from_host_lem,
}

-- Some device of the host has the bus id.
abbrev has_id : List ℕ → List DeviceInfo → Bool
has_id b [] = false
has_id b (info ∷ infos) = bytes_eq (bus_id_of info) b || has_id b infos

-- No two devices of the host have one bus id.
abbrev pub DistinctIds : List DeviceInfo → Type 0
DistinctIds [] = Unit
DistinctIds (info ∷ infos) = (has_id (bus_id_of info) infos ≡ false) × DistinctIds infos

or_none : (x y z : Bool) → (x || y) ≡ false → (y ≡ false → z ≡ false) → (x || z) ≡ false
or_none x y z e h = ground arith

or_right : (x y : Bool) → (x || y) ≡ false → y ≡ false
or_right x y e = ground arith

has-Exports :
    (bus : Bus) (b : List ℕ) {before after : List Call} (infos : List DeviceInfo)
    (ds : List UsbDevice)
    → Exports bus before infos ds after
    → has_id b infos ≡ false
    → has b ds ≡ false
unfolding has
has-Exports bus b _ _ nothing e = refl
has-Exports bus b (info ∷ infos) ds (not_opened _ _ x) e =
    has-Exports bus b infos ds x (or_right _ _ e)
has-Exports bus b (info ∷ infos) ds (not_configured _ _ _ _ x) e =
    has-Exports bus b infos ds x (or_right _ _ e)
has-Exports bus b (info ∷ infos) (d ∷ ds) (shown _ _ _ _ _ s x) e =
    rw s.same_bus_id (or_none _ _ _ e (has-Exports bus b infos ds x))

Exports-Distinct :
    (bus : Bus) {before after : List Call} (infos : List DeviceInfo) (ds : List UsbDevice)
    → Exports bus before infos ds after
    → DistinctIds infos
    → Distinct ds
Exports-Distinct bus _ _ nothing dis = tt
Exports-Distinct bus (info ∷ infos) ds (not_opened _ _ x) (new, dis) =
    Exports-Distinct bus infos ds x dis
Exports-Distinct bus (info ∷ infos) ds (not_configured _ _ _ _ x) (new, dis) =
    Exports-Distinct bus infos ds x dis
Exports-Distinct bus (info ∷ infos) (d ∷ ds) (shown _ _ _ _ _ s x) (new, dis) = (
  rw s.same_bus_id (has-Exports bus (bus_id_of info) infos ds x new),
  Exports-Distinct bus infos ds x dis,
)

abbrev with_used : Server → List UsbDevice → Server
with_used s u = record s { used = u }

simulated_eq : (s : Server) → s.used ≡ [] → s ≡ new_simulated s.available
unfolding new_simulated
simulated_eq s e = ap (with_used s) e

abbrev ok_value : {A : Type 0} (a : A) → Outcome A → A
ok_value a (ok b) = b
ok_value a _ = a

ok_injective : {A : Type 0} {a b : A} → ok a ≡ ok b → a ≡ b
ok_injective {a} e = ap (ok_value a) e

-- The devices of a server that was made from the host have distinct bus ids if those of the host do.
module _ (nusb : Nusb) (bus : Bus) (debug : Bool) (filter : DeviceInfo → Bool) (calls : List Call)
    (server : Server) (claims : ClaimsSucceed bus)
    (distinct : DistinctIds (offered filter (bus.listed calls)))
    (made : (new_from_host_with_filter nusb bus debug filter calls).0 ≡ ok server) where
  pub made_lem : (server ≡ new_simulated server.available) × Distinct server.available
  made_lem =
      let (s, e, unused, x) = new_from_host_lem nusb bus debug filter calls claims in
      subst (λ (t : Server). (t ≡ new_simulated t.available) × Distinct t.available)
        (ok_injective (sym e ∙ made)) (simulated_eq s unused, Exports-Distinct bus _ _ x distinct)

  -- Connections to a server made from a host, whose devices that pass the filter have distinct bus
  -- ids and whose interfaces can be claimed, never hold devices of one bus id at once, after any run
  -- of imports, ends and panics of connections, additions, removals and cleanups.
  pub hosts_apart :
      (b : System) (i j : ℕ) (d e : UsbDevice)
      → Reach (record { server = server; held = λ k. none }) b
      → b.held i ≡ some d
      → b.held j ≡ some e
      → d.bus_id ≡ e.bus_id
      → i ≡ j
  hosts_apart b i j d e r =
      holders_agree server.available b i j d e made_lem.1
        (subst (λ (t : Server). Reach (record { server = t; held = λ k. none }) b) made_lem.0 r)
