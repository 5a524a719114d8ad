-- ===== src/Device.antt =====
-- src/device.rs: the state of a device that the server exports.
-- A `String` of the pool is the list of its code points, `bus_id` the bytes of its UTF-8 form, and
-- `path` the bytes of the path. A handle of the USB library is a number that stands for it.
pub mod Pool
pub mod Names
pub mod Bytes
pub mod Fresh
pub mod Slots
pub mod Renaming
pub mod Unsetting
pub mod Descriptors
pub mod Urb
pub mod Ends
pub mod Bounds
pub mod Calls
pub mod Cut
pub mod Text
pub mod Chain
use nusbip.Common.{
  ℕ, suc, ◌+◌, ◌*◌, ◌/◌, ◌%◌, ◌^◌, List, [], ◌∷◌, ◌++◌, Option, none, some, Bool, ◌==◌,
  if◌then◌else◌, bit_and, Outcome, ok, bind,
}
use nusbip.Consts.{control, attributes_code, ep0_max_packet_size}
use nusbip.Endpoint.{UsbEndpoint, UsbInterface}
use Pool.{Strings, new_string}

pub record Version : Type 0 where
  pub major : ℕ
  pub minor : ℕ
  pub patch : ℕ

-- `Version::from(u16)`.
unfoldable pub version_from : ℕ → Version
version_from value = record {
  major = value / 2 ^ 8 % 2 ^ 8;
  minor = bit_and (value / 2 ^ 4) 0xf % 2 ^ 8;
  patch = bit_and value 0xf % 2 ^ 8;
}

pub record UsbDevice : Type 0 where
  pub path : List ℕ
  pub bus_id : List ℕ
  pub bus_num : ℕ
  pub dev_num : ℕ
  pub speed : ℕ
  pub vendor_id : ℕ
  pub product_id : ℕ
  pub device_bcd : Version
  pub device_class : ℕ
  pub device_subclass : ℕ
  pub device_protocol : ℕ
  pub configuration_value : ℕ
  pub num_configurations : ℕ
  pub interfaces : List UsbInterface
  pub device_handler : Option ℕ
  pub usb_version : Version
  pub attributes : ℕ
  pub max_power : ℕ
  pub ep0_in : UsbEndpoint
  pub ep0_out : UsbEndpoint
  pub string_pool : Strings
  pub string_configuration : ℕ
  pub string_manufacturer : ℕ
  pub string_product : ℕ
  pub string_serial : ℕ

-- `UsbDevice::find_ep`: the first endpoint of the address, after the two of number 0.
unfoldable pub find_endpoint : ℕ → List UsbEndpoint → Option UsbEndpoint
find_endpoint ep [] = none
find_endpoint ep (e ∷ es) = if e.address == ep then some e else find_endpoint ep es

unfoldable pub find_interface : ℕ → List UsbInterface → Option (UsbEndpoint × Option UsbInterface)
find_interface ep [] = none
find_interface ep (intf ∷ rest) = elim (find_endpoint ep intf.endpoints) [
  | some e ↦ some (e, some intf)
  | none ↦ find_interface ep rest
]

unfoldable pub find_ep : UsbDevice → ℕ → Option (UsbEndpoint × Option UsbInterface)
find_ep d ep =
    if ep == d.ep0_in.address
    then some (d.ep0_in, none)
    else if ep == d.ep0_out.address
    then some (d.ep0_out, none)
    else find_interface ep d.interfaces
