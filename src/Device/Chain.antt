-- ===== src/Device/Chain.antt =====
-- The configuration descriptor of src/device.rs as a host reads it.
use nusbip.Common.{
  ℕ, zero, suc, ◌+◌, ◌*◌, ◌%◌, ◌^◌, ◌≤◌, ◌<◌, List, [], ◌∷◌, ◌++◌, length, All, get_or, ok, ◌≡◌,
  refl, ◌∙◌, arith,
}
use nusbip.Endpoint.{UsbEndpoint, UsbInterface}
use nusbip.Device.{UsbDevice}
use nusbip.Device.Descriptors.{
  low_byte, high_byte, endpoint_descriptors, interface_descriptors, configuration_descriptor,
  cut_to,
}
use nusbip.Device.Cut.{take_all, cut_to-eq-take}
use nusbip.Verify.{Pieces, none_left, piece, Pieces-append, verify_descriptor, verify-Pieces}

-- The class-specific part of each interface is itself such a row.
abbrev pub HasProperClassPart : UsbInterface → Type 0
HasProperClassPart i = Pieces i.class_specific_descriptor

endpoints-Pieces : (es : List UsbEndpoint) → Pieces (endpoint_descriptors es)
unfolding endpoint_descriptors
endpoints-Pieces [] = none_left
endpoints-Pieces (e ∷ es) =
    piece 7
      (5
        ∷ e.address
        ∷ e.attributes
        ∷ low_byte e.max_packet_size
        ∷ high_byte e.max_packet_size
        ∷ e.interval
        ∷ [])
      (endpoint_descriptors es) refl (endpoints-Pieces es)

interfaces-Pieces :
    (i : ℕ) (is : List UsbInterface)
    → All HasProperClassPart is
    → Pieces (interface_descriptors i is)
unfolding interface_descriptors
interfaces-Pieces i [] h = none_left
interfaces-Pieces i (intf ∷ rest) (p, ps) =
    piece 9
      (4
        ∷ low_byte i
        ∷ 0
        ∷ low_byte (length intf.endpoints)
        ∷ intf.interface_class
        ∷ intf.interface_subclass
        ∷ intf.interface_protocol
        ∷ intf.string_interface
        ∷ [])
      (intf.class_specific_descriptor
        ++ (endpoint_descriptors intf.endpoints ++ interface_descriptors (i + 1) rest))
      refl
      (Pieces-append p
        (Pieces-append (endpoints-Pieces intf.endpoints) (interfaces-Pieces (i + 1) rest ps)))

abbrev total_length : UsbDevice → ℕ
total_length d = (9 + length (interface_descriptors 0 d.interfaces)) % 2 ^ 16

-- A configuration descriptor whose class-specific parts are rows of descriptors is one, and
-- `verify_descriptor` accepts it.
pub verify-configuration_descriptor :
    (d : UsbDevice)
    → All HasProperClassPart d.interfaces
    → verify_descriptor (configuration_descriptor d) ≡ ok tt
unfolding configuration_descriptor
verify-configuration_descriptor d h = verify-Pieces (configuration_descriptor d) (
    piece 9
      (2
        ∷ low_byte (total_length d)
        ∷ high_byte (total_length d)
        ∷ low_byte (length d.interfaces)
        ∷ d.configuration_value
        ∷ d.string_configuration
        ∷ d.attributes
        ∷ d.max_power
        ∷ [])
      (interface_descriptors 0 d.interfaces) refl (interfaces-Pieces 0 d.interfaces h))

-- The total length that a host finds in the first four bytes of the configuration descriptor is the
-- length of the whole, if that is below 2 ^ 16; so a host that asks for four bytes at least, and then
-- for as many as these announce, has the whole descriptor and nothing else.
pub configuration_total_length :
    (d : UsbDevice) (requested : ℕ)
    → length (configuration_descriptor d) < 2 ^ 16
    → 4 ≤ requested
    → let front = cut_to requested (configuration_descriptor d) in
      let total = get_or front 2 0 + 256 * get_or front 3 0 in
      (total ≡ length (configuration_descriptor d))
      × (cut_to total (configuration_descriptor d) ≡ configuration_descriptor d)
unfolding configuration_descriptor
configuration_total_length d (suc (suc (suc (suc r)))) small enough =
    rw (cut_to-eq-take (suc (suc (suc (suc r)))) (configuration_descriptor d) small) (
      total,
      rw total (
          cut_to-eq-take _ _ small
          ∙ take_all (length (configuration_descriptor d)) _ (omega arith)),
    )
  where
    total :
        low_byte (total_length d) + 256 * high_byte (total_length d)
        ≡ length (configuration_descriptor d)
    total = omega arith
configuration_total_length d zero small enough = absurd (omega arith)
configuration_total_length d (suc zero) small enough = absurd (omega arith)
configuration_total_length d (suc (suc zero)) small enough = absurd (omega arith)
configuration_total_length d (suc (suc (suc zero))) small enough = absurd (omega arith)
