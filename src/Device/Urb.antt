-- ===== src/Device/Urb.antt =====
-- `UsbDevice::handle_urb` of src/device.rs.
use nusbip.Common.{
  ℕ, ◌/◌, ◌^◌, List, [], ◌∷◌, Option, none, some, Bool, false, ◌==◌, if◌then◌else◌, bit_and,
  get_elem?, Outcome, ok, panic, bind,
}
use nusbip.Consts.{
  control, attributes_from, StandardRequest, get_descriptor, set_configuration, request_from,
  DescriptorType, device, bos, configuration, string, device_qualifier, descriptor_from,
}
use nusbip.Endpoint.{UsbEndpoint, UsbInterface, in_dir, out_dir, direction}
use nusbip.Setup.{SetupPacket}
use nusbip.Device.{UsbDevice}
use nusbip.Device.Descriptors.{
  cut_to, device_descriptor, bos_descriptor, configuration_descriptor, string_descriptor,
  qualifier_descriptor, low_byte,
}
use nusbip.Host.{handle_urb_for_interface, handle_urb_for_device}
use nusbip.Host.Effects.{Nusb, Effect, ◌>>=◌, ◌>>◌, pure, lift, attempt, detach_kernel_driver}
use nusbip.Host.Effects

-- The descriptor of the type in the high byte of `wValue`, cut to `wLength`; of no type, nothing.
unfoldable pub descriptor_of :
    Bool → UsbDevice → SetupPacket → Option DescriptorType → Outcome (List ℕ)
descriptor_of debug d setup (some device) = ok (cut_to setup.length (device_descriptor d))
descriptor_of debug d setup (some bos) = ok (cut_to setup.length bos_descriptor)
descriptor_of debug d setup (some configuration) =
    ok (cut_to setup.length (configuration_descriptor d))
descriptor_of debug d setup (some string) =
    bind (string_descriptor debug d (low_byte setup.value)) λ desc. ok (cut_to setup.length desc)
descriptor_of debug d setup (some device_qualifier) =
    ok (cut_to setup.length (qualifier_descriptor d))
descriptor_of debug d setup _ = ok []

-- A standard GET_DESCRIPTOR of the device.
unfoldable pub is_get_descriptor : SetupPacket → Option StandardRequest → Bool
is_get_descriptor setup (some get_descriptor) = setup.request_type == 0b1000_0000
is_get_descriptor setup _ = false

unfoldable pub is_set_configuration : SetupPacket → Option StandardRequest → Bool
is_set_configuration setup (some set_configuration) = setup.request_type == 0
is_set_configuration setup _ = false

module _ (nusb : Nusb) (debug : Bool) (d : UsbDevice) where
  -- A request to an interface: an index that the device does not have panics.
  unfoldable pub to_interface : UsbEndpoint → ℕ → SetupPacket → List ℕ → Effect (List ℕ)
  to_interface ep transfer_buffer_length setup out_data =
      elim (get_elem? d.interfaces (bit_and setup.index 0xff)) [
        | some intf ↦
            handle_urb_for_interface nusb debug intf.handler ep transfer_buffer_length setup
              out_data
        | none ↦ lift panic
      ]

  unfoldable pub control_in_urb : UsbEndpoint → ℕ → SetupPacket → List ℕ → Effect (List ℕ)
  unfolding is_get_descriptor to_interface
  control_in_urb ep transfer_buffer_length setup out_data =
      if is_get_descriptor setup (request_from setup.request)
      then lift (descriptor_of debug d setup (descriptor_from (setup.value / 2 ^ 8)))
      else if bit_and setup.request_type 0xf == 1
      then to_interface ep transfer_buffer_length setup out_data
      else if bit_and setup.request_type 0xf == 0
      then (elim d.device_handler [
        | some handler ↦ handle_urb_for_device nusb debug handler setup out_data
        | none ↦ lift panic
      ])
      else lift panic

  -- The interface number whose driver is detached: 0 for a request to no interface.
  unfoldable pub detached_number : Option UsbInterface → ℕ
  detached_number (some i) = nusb.interface_number i.handler
  detached_number none = 0

  -- SET_CONFIGURATION: errors of the host are logged and passed over.
  unfoldable pub configure_host : Option UsbInterface → SetupPacket → Option ℕ → Effect (Unit {0})
  unfolding detached_number
  configure_host intf setup none = pure tt
  configure_host intf setup (some handler) = do
    detached ← attempt nusb (detach_kernel_driver handler (detached_number intf))
    configured ← attempt nusb (Effects.set_configuration handler (low_byte setup.value))
    pure tt

  unfoldable pub control_out_urb :
      UsbEndpoint → Option UsbInterface → ℕ → SetupPacket → List ℕ → Effect (List ℕ)
  unfolding is_set_configuration configure_host to_interface
  control_out_urb ep intf transfer_buffer_length setup out_data =
      if is_set_configuration setup (request_from setup.request)
      then (do
        configure_host intf setup d.device_handler
        pure (cut_to setup.length (d.configuration_value ∷ [])))
      else if bit_and setup.request_type 0xf == 1
      then to_interface ep transfer_buffer_length setup out_data
      else if bit_and setup.request_type 0xf == 0
      then (elim d.device_handler [
        | some handler ↦ handle_urb_for_device nusb debug handler setup out_data
        | none ↦ pure []
      ])
      else lift panic

  -- A transfer of another kind: `intf.unwrap()`.
  unfoldable pub other_urb :
      UsbEndpoint → Option UsbInterface → ℕ → SetupPacket → List ℕ → Effect (List ℕ)
  other_urb ep none transfer_buffer_length setup out_data = lift panic
  other_urb ep (some intf) transfer_buffer_length setup out_data =
      handle_urb_for_interface nusb debug intf.handler ep transfer_buffer_length setup out_data

  unfoldable pub handle_urb :
      UsbEndpoint → Option UsbInterface → ℕ → SetupPacket → List ℕ → Effect (List ℕ)
  handle_urb ep intf transfer_buffer_length setup out_data = elim (attributes_from ep.attributes) [
    | some control ↦ (elim (direction ep) [
      | in_dir ↦ control_in_urb ep transfer_buffer_length setup out_data
      | out_dir ↦ control_out_urb ep intf transfer_buffer_length setup out_data
    ])
    | _ ↦ other_urb ep intf transfer_buffer_length setup out_data
  ]
