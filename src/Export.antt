-- ===== src/Export.antt =====
-- `UsbIpServer::with_nusb_devices` and `new_from_host` of src/lib.rs, on Linux: what the server exports
-- of the devices of the host. The warnings are left out.
pub mod Path
pub mod Shows
pub mod Claims
pub mod Faithful
pub mod Shared
use nusbip.Common.{
  ℕ, ◌+◌, ◌%◌, ◌^◌, List, [], ◌∷◌, Option, none, some, Bool, true, false, if◌then◌else◌, length,
  Outcome, ok, panic, bind,
}
use nusbip.Consts.{control, attributes_code, ep0_max_packet_size}
use nusbip.Endpoint.{UsbEndpoint, UsbInterface}
use nusbip.Device.{UsbDevice, version_from}
use nusbip.Device.Pool.{Strings, new_string}
use nusbip.Device.Names.{default_device, ep0}
use nusbip.Host.Info.{
  Speed, low, full, high, super, super_plus, unlisted, DeviceInfo, EndpointDescriptor,
  InterfaceDescriptor, Configuration,
}
use nusbip.Host.Effects.{Nusb, Effect, ◌>>=◌, ◌>>◌, pure, lift, attempt, detach_kernel_driver}
use nusbip.Host.Bus.{Bus, Reply, got, refused, list_all, open_info, configuration_of, claim}
use nusbip.Server.{Server}
use Path.{bus_id_of}

-- The number of a speed; one that is not named is its own number and 1.
unfoldable pub speed_number : Option Speed → ℕ
speed_number (some low) = 1
speed_number (some full) = 2
speed_number (some high) = 3
speed_number (some super) = 5
speed_number (some super_plus) = 6
speed_number (some (unlisted n)) = n + 1
speed_number none = 0

unfoldable pub export_endpoints : List EndpointDescriptor → List UsbEndpoint
export_endpoints [] = []
export_endpoints (d ∷ ds) =
    record {
      address = d.address;
      attributes = d.transfer_type;
      max_packet_size = d.max_packet_size % 2 ^ 16;
      interval = d.interval;
    }
    ∷ export_endpoints ds

unfoldable pub string_index_of : Option ℕ → ℕ
string_index_of (some i) = i
string_index_of none = 0

unfoldable pub export_interface : ℕ → InterfaceDescriptor → UsbInterface
unfolding export_endpoints string_index_of
export_interface handle desc = record {
  interface_class = desc.class;
  interface_subclass = desc.subclass;
  interface_protocol = desc.protocol;
  endpoints = export_endpoints desc.endpoints;
  string_interface = string_index_of desc.string_index;
  class_specific_descriptor = [];
  handler = handle;
}

-- `intf.descriptor().unwrap()`, on an interface that may not have been claimed.
unfoldable pub described : Bus → Reply ℕ → Outcome UsbInterface
described bus (got handle) = elim (bus.interface_descriptor handle) [
  | some desc ↦ ok (export_interface handle desc)
  | none ↦ panic
]
described bus (refused e) = panic

-- The loop over the interfaces: each is detached from its driver and claimed; a claim that is refused
-- panics.
unfoldable pub export_interfaces : Nusb → Bus → ℕ → List ℕ → Effect (List UsbInterface)
unfolding described
export_interfaces nusb bus dev [] = pure []
export_interfaces nusb bus dev (n ∷ ns) = do
  ignored ← attempt nusb (detach_kernel_driver dev n)
  claimed ← claim bus dev n
  intf ← lift (described bus claimed)
  rest ← export_interfaces nusb bus dev ns
  pure (intf ∷ rest)

-- `if let Some(s) = … { index = device.new_string(s) }`: the index that was there stays for none.
unfoldable pub set_string : Bool → Option (List ℕ) → ℕ → Strings → Outcome (ℕ × Strings)
set_string debug none index pool = ok (index, pool)
set_string debug (some s) index pool = new_string debug s pool

-- The manufacturer, the product and the serial number of a device.
unfoldable pub set_strings :
    Bool → (manufacturer product serial : Option (List ℕ)) → UsbDevice → Outcome UsbDevice
unfolding set_string
set_strings debug manufacturer product serial d =
    bind (set_string debug manufacturer d.string_manufacturer d.string_pool) λ m.
      bind (set_string debug product d.string_product m.1) λ p.
        bind (set_string debug serial d.string_serial p.1) λ s. ok (record d {
          string_pool = s.1;
          string_manufacturer = m.0;
          string_product = p.0;
          string_serial = s.0;
        })

-- A device before its strings are set.
unfoldable pub nameless : Bus → DeviceInfo → ℕ → Configuration → List UsbInterface → UsbDevice
unfolding default_device ep0 bus_id_of speed_number version_from
nameless bus info dev cfg interfaces = record default_device {
  path = info.sysfs_path;
  bus_id = bus_id_of info;
  bus_num = info.busnum;
  dev_num = info.device_address;
  speed = speed_number info.speed;
  vendor_id = info.vendor_id;
  product_id = info.product_id;
  device_class = info.class;
  device_subclass = info.subclass;
  device_protocol = info.protocol;
  device_bcd = version_from info.device_version;
  configuration_value = cfg.configuration_value;
  num_configurations = bus.configurations dev % 2 ^ 8;
  ep0_in = ep0 0x80;
  ep0_out = ep0 0x00;
  interfaces = interfaces;
  device_handler = some dev;
  usb_version = version_from info.usb_version;
  attributes = cfg.attributes;
  max_power = cfg.max_power;
}

unfoldable pub push_some : Option UsbDevice → List UsbDevice → List UsbDevice
push_some none devices = devices
push_some (some d) devices = d ∷ devices

-- `list.filter(filter)`.
unfoldable pub filtered : (DeviceInfo → Bool) → List DeviceInfo → List DeviceInfo
filtered filter [] = []
filtered filter (info ∷ infos) =
    if filter info then info ∷ filtered filter infos else filtered filter infos

module _ (nusb : Nusb) (bus : Bus) (debug : Bool) where
  -- What follows the opening of a device and the look at its configuration.
  unfoldable pub export_configured : DeviceInfo → ℕ → Configuration → Effect (Option UsbDevice)
  unfolding export_interfaces nameless set_strings
  export_configured info dev cfg = do
    interfaces ← export_interfaces nusb bus dev cfg.interface_numbers
    device ← lift (
        set_strings debug info.manufacturer_string info.product_string info.serial_number
          (nameless bus info dev cfg interfaces))
    pure (some device)

  -- A device whose opening or whose configuration is refused is passed over.
  unfoldable pub if_configured : DeviceInfo → ℕ → Reply Configuration → Effect (Option UsbDevice)
  unfolding export_configured
  if_configured info dev (refused e) = pure none
  if_configured info dev (got cfg) = export_configured info dev cfg

  unfoldable pub if_opened : DeviceInfo → Reply ℕ → Effect (Option UsbDevice)
  unfolding if_configured
  if_opened info (refused e) = pure none
  if_opened info (got dev) = do
    configured ← configuration_of bus dev
    if_configured info dev configured

  -- The body of the loop over the devices.
  unfoldable pub export_device : DeviceInfo → Effect (Option UsbDevice)
  unfolding if_opened
  export_device info = do opened ← open_info bus info; if_opened info opened

  -- `with_nusb_devices`.
  unfoldable pub with_nusb_devices : List DeviceInfo → Effect (List UsbDevice)
  with_nusb_devices [] = pure []
  with_nusb_devices (info ∷ infos) = do
    exported ← export_device info
    rest ← with_nusb_devices infos
    pure (push_some exported rest)

  -- A server has no devices if those of the host cannot be listed.
  unfoldable pub if_listed : (DeviceInfo → Bool) → Reply (List DeviceInfo) → Effect Server
  unfolding filtered
  if_listed filter (refused e) = pure (record { available = []; used = [] })
  if_listed filter (got infos) = do
    devices ← with_nusb_devices (filtered filter infos)
    pure (record { available = devices; used = [] })

  unfoldable pub new_from_host_with_filter : (DeviceInfo → Bool) → Effect Server
  unfolding if_listed
  new_from_host_with_filter filter = do listed ← list_all bus; if_listed filter listed

  -- `new_from_host`.
  unfoldable pub new_from_host : Effect Server
  new_from_host = new_from_host_with_filter (λ info. true)
