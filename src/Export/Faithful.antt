-- ===== src/Export/Faithful.antt =====
-- The devices that src/lib.rs exports, against those that the host has.
use nusbip.Common.{ℕ, List, [], ◌∷◌, Option, Bool, ok, ◌≡◌, refl, subst}
use nusbip.Device.{UsbDevice}
use nusbip.Endpoint.{UsbInterface}
use nusbip.Host.Info.{DeviceInfo, Configuration}
use nusbip.Host.Effects.{Nusb, Call, list_devices, open_device, active_configuration}
use nusbip.Host.Bus.{Bus, Reply, got, refused}
use nusbip.Server.{Server}
use nusbip.Export.{
  export_configured, export_device, if_configured, if_opened, if_listed, push_some,
  with_nusb_devices, filtered, new_from_host_with_filter,
}
use nusbip.Export.Shows.{Shows, set_strings-Shows}
use nusbip.Export.Claims.{
  ClaimsSucceed, claims_of, AllClaimed, Gives, continue-Gives, Gives-ok, AllClaimedBy,
  interfaces-Gives,
}

-- Devices of the server show devices of the host, in the order of the host. Each is opened, looked at and
-- claimed after all calls for those before it, and has the handle that it was opened with; only one
-- that the library then refuses to open, or to give the active configuration of, is left out. The
-- lists of calls are those made before and after.
pub data Exports (bus : Bus)
    : List Call → List DeviceInfo → List UsbDevice → List Call → Type 0 where
  nothing : {calls : List Call} → Exports bus calls [] [] calls
  not_opened :
      {calls : List Call} {info : DeviceInfo} {infos : List DeviceInfo} {ds : List UsbDevice}
      {after : List Call} (e : ℕ)
      → bus.opened calls info ≡ refused e
      → Exports bus (open_device info ∷ calls) infos ds after
      → Exports bus calls (info ∷ infos) ds after
  not_configured :
      {calls : List Call} {info : DeviceInfo} {infos : List DeviceInfo} {ds : List UsbDevice}
      {after : List Call} (dev e : ℕ)
      → bus.opened calls info ≡ got dev
      → bus.configured (open_device info ∷ calls) dev ≡ refused e
      → Exports bus (active_configuration dev ∷ open_device info ∷ calls) infos ds after
      → Exports bus calls (info ∷ infos) ds after
  shown :
      {calls : List Call} {info : DeviceInfo} {infos : List DeviceInfo} {d : UsbDevice}
      {ds : List UsbDevice} {after : List Call} {interfaces : List UsbInterface} (dev : ℕ)
      (cfg : Configuration)
      → bus.opened calls info ≡ got dev
      → bus.configured (open_device info ∷ calls) dev ≡ got cfg
      → AllClaimed bus
          (active_configuration dev ∷ open_device info ∷ calls)
          dev
          cfg.interface_numbers
          interfaces
      → Shows bus info dev cfg interfaces d
      → Exports bus
          (claims_of dev cfg.interface_numbers
            (active_configuration dev ∷ open_device info ∷ calls))
          infos
          ds
          after
      → Exports bus calls (info ∷ infos) (d ∷ ds) after

-- The infos that a server is made from: those of a list that pass the filter, and none if there is
-- no list.
abbrev pub offered : (DeviceInfo → Bool) → Reply (List DeviceInfo) → List DeviceInfo
offered filter (got infos) = filtered filter infos
offered filter (refused e) = []

-- What the export of one device adds to that of those before it: it may leave the device out.
abbrev ExportsOne : Bus → List Call → DeviceInfo → Option UsbDevice → List Call → Type 0
ExportsOne bus calls info o mid =
    (infos : List DeviceInfo) (ds : List UsbDevice) (after : List Call)
    → Exports bus mid infos ds after
    → Exports bus calls (info ∷ infos) (push_some o ds) after

module _ (nusb : Nusb) (bus : Bus) (debug : Bool) (claims : ClaimsSucceed bus) where
  configured-Gives :
      (info : DeviceInfo) (dev : ℕ) (cfg : Configuration) (calls : List Call)
      → bus.opened calls info ≡ got dev
      → bus.configured (open_device info ∷ calls) dev ≡ got cfg
      → Gives (ExportsOne bus calls info) (
          export_configured nusb bus debug info dev cfg
            (active_configuration dev ∷ open_device info ∷ calls))
  unfolding export_configured push_some
  configured-Gives info dev cfg calls opens looks =
      continue-Gives
        (AllClaimedBy bus (active_configuration dev ∷ open_device info ∷ calls) dev
          cfg.interface_numbers)
        (ExportsOne bus calls info) _ _
        (interfaces-Gives nusb bus debug claims dev cfg.interface_numbers
          (active_configuration dev ∷ open_device info ∷ calls))
        λ is mid (all, same).
          let (d, e, shows) = set_strings-Shows debug bus info dev cfg is in
          rw e λ infos ds after rest.
            shown dev cfg opens looks all shows
              (subst (λ (m : List Call). Exports bus m infos ds after) same rest)

  if_configured-Gives :
      (info : DeviceInfo) (dev : ℕ) (r : Reply Configuration) (calls : List Call)
      → bus.opened calls info ≡ got dev
      → bus.configured (open_device info ∷ calls) dev ≡ r
      → Gives (ExportsOne bus calls info) (
          if_configured nusb bus debug info dev r
            (active_configuration dev ∷ open_device info ∷ calls))
  unfolding if_configured push_some
  if_configured-Gives info dev (refused e) calls opens looks =
      λ infos ds after rest. not_configured dev e opens looks rest
  if_configured-Gives info dev (got cfg) calls opens looks =
      configured-Gives info dev cfg calls opens looks

  if_opened-Gives :
      (info : DeviceInfo) (r : Reply ℕ) (calls : List Call)
      → bus.opened calls info ≡ r
      → Gives
          (ExportsOne bus calls info)
          (if_opened nusb bus debug info r (open_device info ∷ calls))
  unfolding if_opened push_some
  if_opened-Gives info (refused e) calls opens = λ infos ds after rest. not_opened e opens rest
  if_opened-Gives info (got dev) calls opens =
      if_configured-Gives info dev (bus.configured (open_device info ∷ calls) dev) calls opens refl

  device-Gives :
      (info : DeviceInfo) (calls : List Call)
      → Gives (ExportsOne bus calls info) (export_device nusb bus debug info calls)
  unfolding export_device
  device-Gives info calls = if_opened-Gives info (bus.opened calls info) calls refl

  devices-Gives :
      (infos : List DeviceInfo) (calls : List Call)
      → Gives (Exports bus calls infos) (with_nusb_devices nusb bus debug infos calls)
  unfolding with_nusb_devices
  devices-Gives [] calls = nothing
  devices-Gives (info ∷ infos) calls =
      continue-Gives (ExportsOne bus calls info) (Exports bus calls (info ∷ infos)) _ _
        (device-Gives info calls)
        λ o mid one.
          continue-Gives (Exports bus mid infos) (Exports bus calls (info ∷ infos)) _ _
            (devices-Gives infos mid) λ ds after rest. one infos ds after rest

  listed-Gives :
      (filter : DeviceInfo → Bool) (r : Reply (List DeviceInfo)) (calls : List Call)
      → Gives
          (λ (s : Server) after.
            (s.used ≡ []) × Exports bus calls (offered filter r) s.available after)
          (if_listed nusb bus debug filter r calls)
  unfolding if_listed
  listed-Gives filter (refused e) calls = (refl, nothing)
  listed-Gives filter (got infos) calls =
      continue-Gives (Exports bus calls (filtered filter infos))
        (λ (s : Server) after.
          (s.used ≡ []) × Exports bus calls (filtered filter infos) s.available after)
        _ _ (devices-Gives (filtered filter infos) calls) λ ds after x. (refl, x)

-- If no claim of an interface is refused and a claimed interface has a descriptor, making a server
-- from the host returns, with no device in use. For every answer of the library to the listing, the
-- available devices show the devices of the host that pass the filter, in the order of the host,
-- with their strings, bus ids, paths, numbers, speeds and versions. Each has the handle that the
-- library gives for its opening, after exactly the calls made until then, and for each interface
-- number of its active configuration the handle given for the claim, with the class and the
-- endpoints of that interface. Only a device that the library then refuses to open, or to give the
-- active configuration of, is left out; and no call is made but these and the detaching of each
-- interface before its claim.
pub new_from_host_lem :
    (nusb : Nusb) (bus : Bus) (debug : Bool) (filter : DeviceInfo → Bool) (calls : List Call)
    → ClaimsSucceed bus
    → (server : Server) × ((new_from_host_with_filter nusb bus debug filter calls).0 ≡ ok server)
      × (server.used ≡ [])
      × Exports bus
          (list_devices ∷ calls)
          (offered filter (bus.listed calls))
          server.available
          (new_from_host_with_filter nusb bus debug filter calls).1
unfolding new_from_host_with_filter
new_from_host_lem nusb bus debug filter calls claims =
    let (s, e, (unused, x)) =
      Gives-ok
        (λ (t : Server) after.
          (t.used ≡ [])
          × Exports bus (list_devices ∷ calls) (offered filter (bus.listed calls)) t.available
              after)
        _ (listed-Gives nusb bus debug claims filter (bus.listed calls) (list_devices ∷ calls)) in
    (s, e, unused, x)
