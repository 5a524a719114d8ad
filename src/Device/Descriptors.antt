-- ===== src/Device/Descriptors.antt =====
-- The standard descriptors of `UsbDevice::handle_urb` in src/device.rs.
use nusbip.Common.{
  ℕ, ◌+◌, ◌-◌, ◌*◌, ◌/◌, ◌%◌, ◌^◌, List, [], ◌∷◌, ◌++◌, none, some, Bool, ◌&&◌, ◌==◌, ltb,
  if◌then◌else◌, length, resize, Outcome, bind, ok, err, panic, invalid_string_index,
}
use nusbip.Consts.{
  descriptor_code, device, bos, configuration, string, interface, endpoint, device_qualifier,
}
use nusbip.Endpoint.{UsbEndpoint, UsbInterface}
use nusbip.Device.{UsbDevice}
use nusbip.Device.Pool.{get}

-- `value as u8` and `(value >> 8) as u8`.
abbrev pub low_byte : ℕ → ℕ
low_byte v = v % 2 ^ 8

abbrev pub high_byte : ℕ → ℕ
high_byte v = v / 2 ^ 8 % 2 ^ 8

-- `if setup_packet.length < desc.len() as u16 { desc.resize(setup_packet.length as usize, 0) }`.
unfoldable pub cut_to : ℕ → List ℕ → List ℕ
cut_to requested desc =
    if ltb requested (length desc % 2 ^ 16) then resize requested 0 desc else desc

unfoldable pub device_descriptor : UsbDevice → List ℕ
unfolding descriptor_code
device_descriptor d =
    0x12
    ∷ descriptor_code device
    ∷ d.usb_version.minor
    ∷ d.usb_version.major
    ∷ d.device_class
    ∷ d.device_subclass
    ∷ d.device_protocol
    ∷ low_byte d.ep0_in.max_packet_size
    ∷ low_byte d.vendor_id
    ∷ high_byte d.vendor_id
    ∷ low_byte d.product_id
    ∷ high_byte d.product_id
    ∷ d.device_bcd.minor
    ∷ d.device_bcd.major
    ∷ d.string_manufacturer
    ∷ d.string_product
    ∷ d.string_serial
    ∷ d.num_configurations
    ∷ []

unfoldable pub bos_descriptor : List ℕ
unfolding descriptor_code
bos_descriptor = 0x05 ∷ descriptor_code bos ∷ 0x05 ∷ 0x00 ∷ 0x00 ∷ []

unfoldable pub endpoint_descriptors : List UsbEndpoint → List ℕ
unfolding descriptor_code
endpoint_descriptors [] = []
endpoint_descriptors (e ∷ es) =
    0x07
    ∷ descriptor_code endpoint
    ∷ e.address
    ∷ e.attributes
    ∷ low_byte e.max_packet_size
    ∷ high_byte e.max_packet_size
    ∷ e.interval
    ∷ endpoint_descriptors es

-- The descriptors of the interfaces, from number `i` on.
unfoldable pub interface_descriptors : ℕ → List UsbInterface → List ℕ
unfolding descriptor_code endpoint_descriptors
interface_descriptors i [] = []
interface_descriptors i (intf ∷ rest) =
    (0x09
      ∷ descriptor_code interface
      ∷ low_byte i
      ∷ 0x00
      ∷ low_byte (length intf.endpoints)
      ∷ intf.interface_class
      ∷ intf.interface_subclass
      ∷ intf.interface_protocol
      ∷ intf.string_interface
      ∷ [])
    ++ (intf.class_specific_descriptor
        ++ (endpoint_descriptors intf.endpoints ++ interface_descriptors (i + 1) rest))

-- The two bytes of `wTotalLength` are filled in at the end, by the length of the whole.
unfoldable pub configuration_descriptor : UsbDevice → List ℕ
unfolding descriptor_code interface_descriptors
configuration_descriptor d =
    let interfaces = interface_descriptors 0 d.interfaces in
    let len = (9 + length interfaces) % 2 ^ 16 in
    0x09
    ∷ descriptor_code configuration
    ∷ low_byte len
    ∷ high_byte len
    ∷ low_byte (length d.interfaces)
    ∷ d.configuration_value
    ∷ d.string_configuration
    ∷ d.attributes
    ∷ d.max_power
    ∷ interfaces

unfoldable pub qualifier_descriptor : UsbDevice → List ℕ
unfolding descriptor_code
qualifier_descriptor d =
    0x0a
    ∷ descriptor_code device_qualifier
    ∷ d.usb_version.minor
    ∷ d.usb_version.major
    ∷ d.device_class
    ∷ d.device_subclass
    ∷ d.device_protocol
    ∷ low_byte d.ep0_in.max_packet_size
    ∷ d.num_configurations
    ∷ 0x00
    ∷ []

-- `str::encode_utf16` of the standard library: a code point above 0xffff is two units.
unfoldable pub encode_utf16 : List ℕ → List ℕ
encode_utf16 [] = []
encode_utf16 (c ∷ cs) =
    (if ltb c 0x1_0000
      then c ∷ []
      else (0xd800 + (c - 0x1_0000) / 0x400) ∷ (0xdc00 + (c - 0x1_0000) % 0x400) ∷ [])
    ++ encode_utf16 cs

unfoldable pub units_le : List ℕ → List ℕ
units_le [] = []
units_le (u ∷ us) = low_byte u ∷ high_byte u ∷ units_le us

-- `2 + bytes.len() as u8 * 2`, in `u8`: too much panics in a debug build and wraps in any other.
unfoldable pub string_length_byte : Bool → ℕ → Outcome ℕ
string_length_byte debug units =
    if debug && ltb 255 (2 + low_byte units * 2)
    then panic
    else ok (low_byte (2 + low_byte units * 2))

unfoldable pub language_descriptor : List ℕ
unfolding descriptor_code
language_descriptor = 4 ∷ descriptor_code string ∷ 0x09 ∷ 0x04 ∷ []

unfoldable pub text_descriptor : Bool → List ℕ → Outcome (List ℕ)
unfolding descriptor_code encode_utf16 units_le string_length_byte
text_descriptor debug s =
    let units = encode_utf16 s in
    bind (string_length_byte debug (length units))
      λ n. ok (n ∷ descriptor_code string ∷ units_le units)

unfoldable pub string_descriptor : Bool → UsbDevice → ℕ → Outcome (List ℕ)
unfolding language_descriptor text_descriptor
string_descriptor debug d index =
    if index == 0 then ok language_descriptor else elim (get index d.string_pool) [
      | some s ↦ text_descriptor debug s
      | none ↦ err (invalid_string_index index)
    ]
