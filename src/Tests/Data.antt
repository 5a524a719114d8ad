-- ===== src/Tests/Data.antt =====
-- The inputs of the tests.
use nusbip.Common.{ℕ, List, [], ◌∷◌, replicate}
use nusbip.Endpoint.{UsbEndpoint, UsbInterface}
use nusbip.Protocol.Header.{HeaderBasic}
use nusbip.Protocol.Command.{Submit}
use nusbip.Device.{UsbDevice}
use nusbip.Device.Names.{default_device}

abbrev pub submit_header : HeaderBasic
submit_header = record { command = 1; seqnum = 7; devid = 2; direction = 0; ep = 1 }

-- A write of two bytes.
abbrev pub two_bytes_out : Submit
two_bytes_out = record {
  transfer_flags = 0;
  transfer_buffer_length = 2;
  start_frame = 0;
  number_of_packets = 0;
  interval = 0;
  setup = replicate 8 0;
  payload = 0xaa ∷ 0xbb ∷ [];
  iso_packet_descriptor = [];
}

abbrev pub bulk_in_endpoint : UsbEndpoint
bulk_in_endpoint = record { address = 0x81; attributes = 2; max_packet_size = 512; interval = 0 }

abbrev pub mass_storage : UsbInterface
mass_storage = record {
  interface_class = 8;
  interface_subclass = 6;
  interface_protocol = 80;
  endpoints = bulk_in_endpoint ∷ [];
  string_interface = 0;
  class_specific_descriptor = [];
  handler = 0;
}

abbrev pub device_named : List ℕ → UsbDevice
device_named b = record default_device {
  bus_id = b;
  interfaces = mass_storage ∷ [];
  string_product = 1;
  string_serial = 2;
  string_pool = (1, 80 ∷ []) ∷ (2, 83 ∷ []) ∷ [];
}
