-- ===== src/Endpoint.antt =====
-- src/endpoint.rs and src/interface.rs: endpoints and interfaces of a device.
use nusbip.Common.{ℕ, List, Bool, ◌==◌, if◌then◌else◌, bit_and}

-- `nusb::transfer::Direction`.
pub data Direction : Type 0 where
  out_dir in_dir : Direction

pub record UsbEndpoint : Type 0 where
  pub address : ℕ
  pub attributes : ℕ
  pub max_packet_size : ℕ
  pub interval : ℕ

-- The most significant bit of the address.
unfoldable pub direction : UsbEndpoint → Direction
direction ep = if bit_and ep.address 0x80 == 0x80 then in_dir else out_dir

unfoldable pub is_ep0 : UsbEndpoint → Bool
is_ep0 ep = bit_and ep.address 0x7f == 0

-- `handler` is the USB library's handle of the claimed interface: a number that stands for it.
pub record UsbInterface : Type 0 where
  pub interface_class : ℕ
  pub interface_subclass : ℕ
  pub interface_protocol : ℕ
  pub endpoints : List UsbEndpoint
  pub string_interface : ℕ
  pub class_specific_descriptor : List ℕ
  pub handler : ℕ
