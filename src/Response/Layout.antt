-- ===== src/Response/Layout.antt =====
-- How long the replies of src/usbip_protocol.rs are, and when they cannot be written.
use nusbip.Common.{
  ℕ, ◌+◌, ◌*◌, ◌%◌, ◌/◌, from_be4, ◌≤◌, List, [], ◌∷◌, ◌++◌, Option, none, some, Bool, false, ok,
  length, length-append, replicate, All, IsU32, u16_be, u32_be, ◌≡◌, refl, arith, ◌⊎◌,
}
use nusbip.Protocol.Header.{
  usbip_version, op_rep_devlist, op_rep_import, HeaderBasic, HeaderFits, header_to_bytes,
  from_bytes,
}
use nusbip.Device.{UsbDevice}
use nusbip.Device.Bytes.{
  device_to_bytes, to_bytes_with_interfaces, interface_bytes, TextsFit, device_to_bytes-eq,
  length-device, length-interface_bytes,
}
use nusbip.Protocol.RoundTrip.{direction_passes}
use nusbip.Response.{
  Response, RetSubmit, rep_devlist, rep_import, ret_submit, ret_unlink, devices_to_bytes,
  imported_to_bytes, ret_submit_fields, response_to_bytes,
}

-- The length of a reply by its parts.
unfoldable pub interfaces_length : List UsbDevice → ℕ
interfaces_length [] = 0
interfaces_length (d ∷ ds) = length d.interfaces * 4 + interfaces_length ds

unfoldable pub imported_length : Option UsbDevice → ℕ
imported_length none = 8
imported_length (some d) = 320

unfoldable pub wire_length : Response → ℕ
wire_length (rep_devlist status device_count devices) =
    12 + length devices * 312 + interfaces_length devices
wire_length (rep_import status device) = imported_length device
wire_length (ret_submit header r) = 48 + length r.transfer_buffer + length r.iso_packet_descriptor
wire_length (ret_unlink header status) = 48

-- What a debug build asserts of a reply.
abbrev pub IsWritable : Bool → Response → Type 0
IsWritable debug (rep_devlist status device_count devices) = All (TextsFit debug) devices
IsWritable debug (rep_import status none) = Unit
IsWritable debug (rep_import status (some d)) = TextsFit debug d
IsWritable debug (ret_submit header r) = (debug ≡ false) ⊎ (header.command ≡ 3)
IsWritable debug (ret_unlink header status) = (debug ≡ false) ⊎ (header.command ≡ 4)

device_bytes :
    (debug : Bool) (d : UsbDevice)
    → TextsFit debug d
    → (bytes : List ℕ) × (device_to_bytes debug d ≡ ok bytes) × (length bytes ≡ 312)
device_bytes debug d fits = (_, device_to_bytes-eq debug d fits, length-device d)

devices_bytes :
    (debug : Bool) (ds : List UsbDevice)
    → All (TextsFit debug) ds
    → (bytes : List ℕ) × (devices_to_bytes debug ds ≡ ok bytes)
      × (length bytes ≡ length ds * 312 + interfaces_length ds)
unfolding devices_to_bytes interfaces_length to_bytes_with_interfaces
devices_bytes debug [] fits = ([], refl, refl)
devices_bytes debug (d ∷ ds) (fit, fits) =
    let (front, e, n) = device_bytes debug d fit in
    let (back, f, m) = devices_bytes debug ds fits in
    (
      (front ++ interface_bytes d.interfaces) ++ back,
      rw (e, f) refl,
      omega (
        arith,
        length-append (front ++ interface_bytes d.interfaces) back,
        length-append front (interface_bytes d.interfaces),
        length-interface_bytes d.interfaces,
      ),
    )

length-header : (h : HeaderBasic) → length (header_to_bytes h) ≡ 20
unfolding header_to_bytes u32_be
length-header h = refl

length-ret_submit_fields : (r : RetSubmit) → length (ret_submit_fields r) ≡ 28
unfolding ret_submit_fields u32_be
length-ret_submit_fields r = refl

-- Every reply that passes the debug assertions is written: a list of devices in 12 bytes, 312 for
-- each device and 4 for each interface, a granted import in 320 bytes, a refused one in 8, a reply to
-- a submit in 48 and its two buffers, and one to an unlink in 48.
pub length-response :
    (debug : Bool) (r : Response)
    → IsWritable debug r
    → (bytes : List ℕ) × (response_to_bytes debug r ≡ ok bytes) × (length bytes ≡ wire_length r)
unfolding response_to_bytes wire_length u16_be u32_be imported_to_bytes imported_length
length-response debug (rep_devlist status device_count devices) w =
    let (bytes, e, n) = devices_bytes debug devices w in
    (
      u16_be usbip_version
          ++ (u16_be op_rep_devlist ++ (u32_be status ++ (u32_be device_count ++ bytes))),
      rw e refl,
      omega arith,
    )
length-response debug (rep_import status none) w = (_, refl, refl)
length-response debug (rep_import status (some d)) w =
    let (bytes, e, n) = device_bytes debug d w in
    (
      u16_be usbip_version ++ (u16_be op_rep_import ++ (u32_be status ++ bytes)),
      rw e refl,
      omega arith,
    )
length-response debug (ret_submit header r) w = (
  header_to_bytes header ++ (ret_submit_fields r ++ (r.transfer_buffer ++ r.iso_packet_descriptor)),
  ground arith,
  omega (
    arith,
    length-append (header_to_bytes header)
        (ret_submit_fields r ++ (r.transfer_buffer ++ r.iso_packet_descriptor)),
    length-append (ret_submit_fields r) (r.transfer_buffer ++ r.iso_packet_descriptor),
    length-append r.transfer_buffer r.iso_packet_descriptor,
    length-header header,
    length-ret_submit_fields r,
  ),
)
length-response debug (ret_unlink header status) w = (
  header_to_bytes header ++ (u32_be status ++ replicate 24 0),
  ground arith,
  omega (
    arith,
    length-append (header_to_bytes header) (u32_be status ++ replicate 24 0),
    length-header header,
  ),
)

from_be4-split :
    (v : ℕ)
    → IsU32 v
    → from_be4 (v / 0x100_0000 % 256) (v / 0x1_0000 % 256) (v / 0x100 % 256) (v % 256) ≡ v
from_be4-split v h = omega arith

-- The header that begins a reply is read back from its 20 bytes; in a debug build its direction is
-- at most 1.
pub from_bytes-to_bytes :
    (debug : Bool) (h : HeaderBasic)
    → HeaderFits h
    → (debug ≡ false) ⊎ (h.direction ≤ 1)
    → from_bytes debug (header_to_bytes h) ≡ ok h
unfolding from_bytes header_to_bytes u32_be
from_bytes-to_bytes debug h fits dir = rw (
  from_be4-split h.command fits.command_fits,
  from_be4-split h.seqnum fits.seqnum_fits,
  from_be4-split h.devid fits.devid_fits,
  from_be4-split h.direction fits.direction_fits,
  from_be4-split h.ep fits.ep_fits,
  direction_passes debug h.direction dir,
)
