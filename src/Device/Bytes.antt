-- ===== src/Device/Bytes.antt =====
-- `UsbDevice::to_bytes` and `to_bytes_with_interfaces` of src/device.rs.
use nusbip.Common.{
  ℕ, ◌*◌, ◌%◌, ◌≤◌, ◌^◌, List, [], ◌∷◌, ◌++◌, Bool, false, leb, debug_assert, Outcome, ok, bind,
  u16_be, u32_be, resize, length, length-append, length-resize, ◌≡◌, refl, arith, ◌⊎◌,
}
use nusbip.Endpoint.{UsbInterface}
use nusbip.Device.{UsbDevice}

-- The fields behind the two texts.
unfoldable pub device_numbers : UsbDevice → List ℕ
device_numbers d =
    u32_be d.bus_num
    ++ (u32_be d.dev_num
        ++ (u32_be d.speed
            ++ (u16_be d.vendor_id
                ++ (u16_be d.product_id
                    ++ (d.device_bcd.major
                        ∷ d.device_bcd.minor
                        ∷ d.device_class
                        ∷ d.device_subclass
                        ∷ d.device_protocol
                        ∷ d.configuration_value
                        ∷ d.num_configurations
                        ∷ (length d.interfaces % 2 ^ 8)
                        ∷ [])))))

unfoldable pub device_to_bytes : Bool → UsbDevice → Outcome (List ℕ)
device_to_bytes debug d = bind (debug_assert debug (leb (length d.path) 256)) λ _.
    bind (debug_assert debug (leb (length d.bus_id) 32))
      λ _. ok (resize 256 0 d.path ++ (resize 32 0 d.bus_id ++ device_numbers d))

unfoldable pub interface_bytes : List UsbInterface → List ℕ
interface_bytes [] = []
interface_bytes (i ∷ rest) =
    i.interface_class ∷ i.interface_subclass ∷ i.interface_protocol ∷ 0 ∷ interface_bytes rest

unfoldable pub to_bytes_with_interfaces : Bool → UsbDevice → Outcome (List ℕ)
to_bytes_with_interfaces debug d =
    bind (device_to_bytes debug d) λ bytes. ok (bytes ++ interface_bytes d.interfaces)

length-device_numbers : (d : UsbDevice) → length (device_numbers d) ≡ 24
unfolding device_numbers u32_be u16_be
length-device_numbers d = refl

-- The texts of a device fit their fields, which a debug build requires.
abbrev pub TextsFit : Bool → UsbDevice → Type 0
TextsFit debug d = (debug ≡ false) ⊎ ((length d.path ≤ 256) × (length d.bus_id ≤ 32))

pub device_to_bytes-eq :
    (debug : Bool) (d : UsbDevice)
    → TextsFit debug d
    → device_to_bytes debug d
      ≡ ok (resize 256 0 d.path ++ (resize 32 0 d.bus_id ++ device_numbers d))
unfolding device_to_bytes
device_to_bytes-eq debug d fits = ground arith

pub length-device :
    (d : UsbDevice)
    → length (resize 256 0 d.path ++ (resize 32 0 d.bus_id ++ device_numbers d)) ≡ 312
length-device d = omega (
  arith,
  length-append (resize 256 0 d.path) (resize 32 0 d.bus_id ++ device_numbers d),
  length-append (resize 32 0 d.bus_id) (device_numbers d),
  length-resize 256 0 d.path,
  length-resize 32 0 d.bus_id,
  length-device_numbers d,
)

pub length-interface_bytes : (is : List UsbInterface) → length (interface_bytes is) ≡ 4 * length is
unfolding interface_bytes
length-interface_bytes [] = refl
length-interface_bytes (i ∷ rest) = omega (arith, length-interface_bytes rest)
