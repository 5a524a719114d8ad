-- ===== src/Device/Names.antt =====
-- The constructors of a `UsbDevice` in src/device.rs, and the methods that set its names.
use nusbip.Common.{
  ℕ, List, [], ◌∷◌, ◌++◌, Option, none, some, Bool, ◌==◌, if◌then◌else◌, Outcome, ok, bind, codes,
}
use nusbip.Consts.{control, attributes_code, UsbSpeed, speed_code, ep0_max_packet_size}
use nusbip.Endpoint.{UsbEndpoint}
use nusbip.Device.{UsbDevice, Version}
use nusbip.Device.Pool.{Strings, get, remove, new_string}

-- `(index != 0).then(|| self.string_pool.remove(&index)).flatten()`: the string, and the pool left.
unfoldable pub take_string : ℕ → Strings → Option (List ℕ) × Strings
take_string index pool = if index == 0 then (none, pool) else (get index pool, remove index pool)

unfoldable pub set_configuration_name :
    Bool → List ℕ → UsbDevice → Outcome (Option (List ℕ) × UsbDevice)
unfolding take_string
set_configuration_name debug name d =
    let (old, pool) = take_string d.string_configuration d.string_pool in
    bind (new_string debug name pool)
      λ r. ok (old, record d { string_pool = r.1; string_configuration = r.0 })

unfoldable pub unset_configuration_name : UsbDevice → Option (List ℕ) × UsbDevice
unfolding take_string
unset_configuration_name d =
    let (old, pool) = take_string d.string_configuration d.string_pool in
    (old, record d { string_pool = pool; string_configuration = 0 })

unfoldable pub set_serial_number : Bool → List ℕ → UsbDevice → Outcome (Option (List ℕ) × UsbDevice)
unfolding take_string
set_serial_number debug name d =
    let (old, pool) = take_string d.string_serial d.string_pool in
    bind (new_string debug name pool)
      λ r. ok (old, record d { string_pool = r.1; string_serial = r.0 })

unfoldable pub unset_serial_number : UsbDevice → Option (List ℕ) × UsbDevice
unfolding take_string
unset_serial_number d =
    let (old, pool) = take_string d.string_serial d.string_pool in
    (old, record d { string_pool = pool; string_serial = 0 })

unfoldable pub set_product_name : Bool → List ℕ → UsbDevice → Outcome (Option (List ℕ) × UsbDevice)
unfolding take_string
set_product_name debug name d =
    let (old, pool) = take_string d.string_product d.string_pool in
    bind (new_string debug name pool)
      λ r. ok (old, record d { string_pool = r.1; string_product = r.0 })

unfoldable pub unset_product_name : UsbDevice → Option (List ℕ) × UsbDevice
unfolding take_string
unset_product_name d =
    let (old, pool) = take_string d.string_product d.string_pool in
    (old, record d { string_pool = pool; string_product = 0 })

unfoldable pub set_manufacturer_name :
    Bool → List ℕ → UsbDevice → Outcome (Option (List ℕ) × UsbDevice)
unfolding take_string
set_manufacturer_name debug name d =
    let (old, pool) = take_string d.string_manufacturer d.string_pool in
    bind (new_string debug name pool)
      λ r. ok (old, record d { string_pool = r.1; string_manufacturer = r.0 })

unfoldable pub unset_manufacturer_name : UsbDevice → Option (List ℕ) × UsbDevice
unfolding take_string
unset_manufacturer_name d =
    let (old, pool) = take_string d.string_manufacturer d.string_pool in
    (old, record d { string_pool = pool; string_manufacturer = 0 })

-- `UsbDevice::default()`.
unfoldable pub default_device : UsbDevice
default_device = record {
  path = [];
  bus_id = [];
  bus_num = 0;
  dev_num = 0;
  speed = 0;
  vendor_id = 0;
  product_id = 0;
  device_bcd = zero_version;
  device_class = 0;
  device_subclass = 0;
  device_protocol = 0;
  configuration_value = 0;
  num_configurations = 0;
  interfaces = [];
  device_handler = none;
  usb_version = zero_version;
  attributes = 0;
  max_power = 0;
  ep0_in = zero_endpoint;
  ep0_out = zero_endpoint;
  string_pool = [];
  string_configuration = 0;
  string_manufacturer = 0;
  string_product = 0;
  string_serial = 0;
}
  where
    zero_version : Version
    zero_version = record { major = 0; minor = 0; patch = 0 }

    zero_endpoint : UsbEndpoint
    zero_endpoint = record { address = 0; attributes = 0; max_packet_size = 0; interval = 0 }

unfoldable pub ep0 : ℕ → UsbEndpoint
unfolding attributes_code ep0_max_packet_size
ep0 address = record {
  address = address;
  attributes = attributes_code control;
  max_packet_size = ep0_max_packet_size;
  interval = 0;
}

-- `UsbDevice::new`.
unfoldable pub new_device : Bool → ℕ → Outcome UsbDevice
unfolding default_device ep0 speed_code
new_device debug index = bind (new_string debug (codes "Default Configuration") []) λ configuration.
    bind (new_string debug (codes "Manufacturer") configuration.1) λ manufacturer.
      bind (new_string debug (codes "Product") manufacturer.1) λ product.
        bind (new_string debug (codes "Serial") product.1) λ serial. ok (record default_device {
          path = codes "/sys/bus/0/0/0";
          bus_id = codes "0-0-0";
          dev_num = index;
          speed = speed_code UsbSpeed.high;
          ep0_in = ep0 0x80;
          ep0_out = ep0 0x00;
          configuration_value = 1;
          num_configurations = 1;
          string_pool = serial.1;
          string_configuration = configuration.0;
          string_manufacturer = manufacturer.0;
          string_product = product.0;
          string_serial = serial.0;
        })

-- `name.map(|name| self.new_string(name)).unwrap_or(0)`.
unfoldable pub name_interface : Bool → Option (List ℕ) → Strings → Outcome (ℕ × Strings)
name_interface debug none pool = ok (0, pool)
name_interface debug (some name) pool = new_string debug name pool

unfoldable pub with_interface :
    Bool
    → UsbDevice
    → (class subclass protocol : ℕ) → Option (List ℕ)
    → List UsbEndpoint
    → (handler : ℕ) → Outcome UsbDevice
unfolding name_interface
with_interface debug d class subclass protocol name endpoints handler =
    bind (name_interface debug name d.string_pool) λ r. ok (record d {
      string_pool = r.1;
      interfaces =
          d.interfaces
          ++ (record {
            interface_class = class;
            interface_subclass = subclass;
            interface_protocol = protocol;
            endpoints = endpoints;
            string_interface = r.0;
            class_specific_descriptor = [];
            handler = handler;
          }
              ∷ []);
    })

unfoldable pub with_device_handler : UsbDevice → ℕ → UsbDevice
with_device_handler d handler = record d { device_handler = some handler }
