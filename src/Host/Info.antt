-- ===== src/Host/Info.antt =====
-- What the USB library `nusb` says of the devices of the host.
use nusbip.Common.{ℕ, List, Option}

-- `nusb::Speed`, which may grow: a speed that the program does not name is `unlisted` by its number.
pub data Speed : Type 0 where
  low full high super super_plus : Speed
  unlisted : ℕ → Speed

-- `nusb::DeviceInfo`. Its path is in bytes, and its strings are in code points; of its interfaces, the
-- classes.
pub record DeviceInfo : Type 0 where
  pub sysfs_path : List ℕ
  pub busnum : ℕ
  pub device_address : ℕ
  pub speed : Option Speed
  pub vendor_id : ℕ
  pub product_id : ℕ
  pub class : ℕ
  pub subclass : ℕ
  pub protocol : ℕ
  pub device_version : ℕ
  pub usb_version : ℕ
  pub manufacturer_string : Option (List ℕ)
  pub product_string : Option (List ℕ)
  pub serial_number : Option (List ℕ)
  pub interface_classes : List ℕ

pub record EndpointDescriptor : Type 0 where
  pub address : ℕ
  pub transfer_type : ℕ
  pub max_packet_size : ℕ
  pub interval : ℕ

pub record InterfaceDescriptor : Type 0 where
  pub class : ℕ
  pub subclass : ℕ
  pub protocol : ℕ
  pub string_index : Option ℕ
  pub endpoints : List EndpointDescriptor

-- An active configuration; of its interfaces, the numbers.
pub record Configuration : Type 0 where
  pub configuration_value : ℕ
  pub attributes : ℕ
  pub max_power : ℕ
  pub interface_numbers : List ℕ
