-- ===== src/Export/Shows.antt =====
-- What src/lib.rs shows of a device of the host.
use nusbip.Common.{
  ℕ, ◌%◌, ◌^◌, List, [], Option, none, some, Bool, true, false, ok, ◌≡◌, refl, sym, ap, subst,
}
use nusbip.Device.{UsbDevice, version_from}
use nusbip.Device.Names.{default_device}
use nusbip.Device.Pool.{get, new_string, new_string_from}
use nusbip.Device.Slots.{configuration, manufacturer, product, serial, index_of, string_of}
use nusbip.Consts.{UsbSpeed, speed_code}
use nusbip.Host.Info.{Speed, DeviceInfo, Configuration}
use nusbip.Host.Bus.{Bus}
use nusbip.Endpoint.{UsbInterface}
use nusbip.Export.{speed_number, set_strings, nameless}
use nusbip.Export.Path.{bus_id_of}

-- The strings that the four slots of a device stand for.
abbrev pub HasNames : (m p s : Option (List ℕ)) → UsbDevice → Type 0
HasNames m p s d =
    (string_of configuration d ≡ none)
    × (string_of manufacturer d ≡ m)
    × (string_of product d ≡ p)
    × (string_of serial d ≡ s)

-- A device with no strings.
abbrev fresh : UsbDevice → UsbDevice
fresh d = record d {
  string_pool = [];
  string_configuration = 0;
  string_manufacturer = 0;
  string_product = 0;
  string_serial = 0;
}

-- All of a device but its strings.
abbrev pub Agree : UsbDevice → UsbDevice → Type 0
Agree d d' = fresh d ≡ fresh d'

set_strings_lem :
    (debug : Bool) (m p s : Option (List ℕ)) (d : UsbDevice)
    → (d' : UsbDevice) × (set_strings debug m p s (fresh d) ≡ ok d')
      × HasNames m p s d'
      × Agree d' d
unfolding set_strings new_string new_string_from get string_of index_of
set_strings_lem true none none none d = (_, refl, (refl, refl, refl, refl), refl)
set_strings_lem true none none (some s) d = (_, refl, (refl, refl, refl, refl), refl)
set_strings_lem true none (some p) none d = (_, refl, (refl, refl, refl, refl), refl)
set_strings_lem true none (some p) (some s) d = (_, refl, (refl, refl, refl, refl), refl)
set_strings_lem true (some m) none none d = (_, refl, (refl, refl, refl, refl), refl)
set_strings_lem true (some m) none (some s) d = (_, refl, (refl, refl, refl, refl), refl)
set_strings_lem true (some m) (some p) none d = (_, refl, (refl, refl, refl, refl), refl)
set_strings_lem true (some m) (some p) (some s) d = (_, refl, (refl, refl, refl, refl), refl)
set_strings_lem false none none none d = (_, refl, (refl, refl, refl, refl), refl)
set_strings_lem false none none (some s) d = (_, refl, (refl, refl, refl, refl), refl)
set_strings_lem false none (some p) none d = (_, refl, (refl, refl, refl, refl), refl)
set_strings_lem false none (some p) (some s) d = (_, refl, (refl, refl, refl, refl), refl)
set_strings_lem false (some m) none none d = (_, refl, (refl, refl, refl, refl), refl)
set_strings_lem false (some m) none (some s) d = (_, refl, (refl, refl, refl, refl), refl)
set_strings_lem false (some m) (some p) none d = (_, refl, (refl, refl, refl, refl), refl)
set_strings_lem false (some m) (some p) (some s) d = (_, refl, (refl, refl, refl, refl), refl)

-- The number of a speed is that of the same speed in src/consts.rs, if it has one.
abbrev pub HasSpeed : Option Speed → ℕ → Type 0
HasSpeed none n = n ≡ speed_code UsbSpeed.unknown
HasSpeed (some Speed.low) n = n ≡ speed_code UsbSpeed.low
HasSpeed (some Speed.full) n = n ≡ speed_code UsbSpeed.full
HasSpeed (some Speed.high) n = n ≡ speed_code UsbSpeed.high
HasSpeed (some Speed.super) n = n ≡ speed_code UsbSpeed.super
HasSpeed (some Speed.super_plus) n = n ≡ speed_code UsbSpeed.super_plus
HasSpeed (some (Speed.unlisted k)) n = Unit

speed_number-HasSpeed : (s : Option Speed) → HasSpeed s (speed_number s)
unfolding speed_number speed_code
speed_number-HasSpeed none = refl
speed_number-HasSpeed (some Speed.low) = refl
speed_number-HasSpeed (some Speed.full) = refl
speed_number-HasSpeed (some Speed.high) = refl
speed_number-HasSpeed (some Speed.super) = refl
speed_number-HasSpeed (some Speed.super_plus) = refl
speed_number-HasSpeed (some (Speed.unlisted k)) = tt

-- What a device of the server shows of a device of the host: its strings, its bus id and its path, its
-- numbers, its speed and its versions, the numbers of its active configuration, and the handle and the
-- interfaces that are given for it.
pub record Shows (bus : Bus) (info : DeviceInfo) (dev : ℕ) (cfg : Configuration)
    (interfaces : List UsbInterface) (d : UsbDevice) : Type 0 where
  pub names : HasNames info.manufacturer_string info.product_string info.serial_number d
  pub same_bus_id : d.bus_id ≡ bus_id_of info
  pub same_path : d.path ≡ info.sysfs_path
  pub same_speed : HasSpeed info.speed d.speed
  pub same_place : (d.bus_num ≡ info.busnum) × (d.dev_num ≡ info.device_address)
  pub same_vendor : d.vendor_id ≡ info.vendor_id
  pub same_product : d.product_id ≡ info.product_id
  pub same_class :
      (d.device_class ≡ info.class)
      × (d.device_subclass ≡ info.subclass)
      × (d.device_protocol ≡ info.protocol)
  pub same_versions :
      (d.device_bcd ≡ version_from info.device_version)
      × (d.usb_version ≡ version_from info.usb_version)
  pub same_configuration :
      (d.configuration_value ≡ cfg.configuration_value)
      × (d.attributes ≡ cfg.attributes)
      × (d.max_power ≡ cfg.max_power)
  pub same_count : d.num_configurations ≡ bus.configurations dev % 2 ^ 8
  pub same_handle : d.device_handler ≡ some dev
  pub same_interfaces : d.interfaces ≡ interfaces

nameless-Shows :
    (bus : Bus) (info : DeviceInfo) (dev : ℕ) (cfg : Configuration) (interfaces : List UsbInterface)
    (d : UsbDevice)
    → HasNames info.manufacturer_string info.product_string info.serial_number d
    → Agree d (nameless bus info dev cfg interfaces)
    → Shows bus info dev cfg interfaces d
unfolding nameless
nameless-Shows bus info dev cfg interfaces d names a = record {
  names = names;
  same_bus_id = ap (λ (x : UsbDevice). x.bus_id) a;
  same_path = ap (λ (x : UsbDevice). x.path) a;
  same_speed =
      subst (HasSpeed info.speed) (ap (λ (x : UsbDevice). x.speed) (sym a))
        (speed_number-HasSpeed info.speed);
  same_place = (ap (λ (x : UsbDevice). x.bus_num) a, ap (λ (x : UsbDevice). x.dev_num) a);
  same_vendor = ap (λ (x : UsbDevice). x.vendor_id) a;
  same_product = ap (λ (x : UsbDevice). x.product_id) a;
  same_class = (
    ap (λ (x : UsbDevice). x.device_class) a,
    ap (λ (x : UsbDevice). x.device_subclass) a,
    ap (λ (x : UsbDevice). x.device_protocol) a,
  );
  same_versions = (ap (λ (x : UsbDevice). x.device_bcd) a, ap (λ (x : UsbDevice). x.usb_version) a);
  same_configuration = (
    ap (λ (x : UsbDevice). x.configuration_value) a,
    ap (λ (x : UsbDevice). x.attributes) a,
    ap (λ (x : UsbDevice). x.max_power) a,
  );
  same_count = ap (λ (x : UsbDevice). x.num_configurations) a;
  same_handle = ap (λ (x : UsbDevice). x.device_handler) a;
  same_interfaces = ap (λ (x : UsbDevice). x.interfaces) a;
}

-- Setting the strings of a device that has none yet shows the device of the host, in every build.
pub set_strings-Shows :
    (debug : Bool) (bus : Bus) (info : DeviceInfo) (dev : ℕ) (cfg : Configuration)
    (interfaces : List UsbInterface)
    → (d : UsbDevice) × (set_strings debug info.manufacturer_string info.product_string
          info.serial_number
          (nameless bus info dev cfg interfaces)
        ≡ ok d)
      × Shows bus info dev cfg interfaces d
unfolding nameless default_device
set_strings-Shows debug bus info dev cfg interfaces =
    let (d, e, names, a) =
      set_strings_lem debug info.manufacturer_string info.product_string info.serial_number
        (nameless bus info dev cfg interfaces) in
    (d, e, nameless-Shows bus info dev cfg interfaces d names a)
