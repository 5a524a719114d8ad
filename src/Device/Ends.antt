-- ===== src/Device/Ends.antt =====
-- How `UsbDevice::handle_urb` of src/device.rs ends.
use nusbip.Common.{
  ℕ, ◌+◌, ◌*◌, ◌/◌, ◌^◌, List, [], Option, none, some, Bool, ◌&&◌, ◌==◌, ltb, length, get_elem?, ok,
  panic, Ends, bind-Ends, if_both, bit_and,
}
use nusbip.Consts.{
  DescriptorType, device, configuration, string, device_qualifier, bos, EndpointAttributes, control,
  attributes_from, request_from, descriptor_from,
}
use nusbip.Endpoint.{UsbEndpoint, UsbInterface, direction}
use nusbip.Setup.{SetupPacket}
use nusbip.Device.{UsbDevice}
use nusbip.Device.Pool.{get}
use nusbip.Device.Descriptors.{
  low_byte, cut_to, encode_utf16, string_length_byte, text_descriptor, string_descriptor,
}
use nusbip.Device.Urb.{
  descriptor_of, is_get_descriptor, is_set_configuration, to_interface, control_in_urb,
  detached_number, configure_host, control_out_urb, other_urb, handle_urb,
}
use nusbip.Host.Effects.{Nusb, Effect, detach_kernel_driver, set_configuration}
use nusbip.Host.Ends.{
  EndsAlways, lift-EndsAlways, pure-EndsAlways, bind-EndsAlways, attempt-EndsAlways, direction_both,
  interface-EndsAlways, device-EndsAlways,
}

option_both {ℓ κ} :
    {A : Type 0} {B : Type ℓ} (P : B → Type κ) (o : Option A) {x : B} {f : A → B}
    → P x
    → ((a : A) → P (f a))
    → P (elim o [ none ↦ x | some a ↦ f a ])
option_both P none p q = p
option_both P (some a) p q = q a

string_length_byte-Ends : (debug : Bool) (n : ℕ) → Ends (string_length_byte debug n)
unfolding string_length_byte
string_length_byte-Ends debug n = if_both Ends (debug && ltb 255 (2 + low_byte n * 2)) tt tt

text_descriptor-Ends : (debug : Bool) (s : List ℕ) → Ends (text_descriptor debug s)
unfolding text_descriptor
text_descriptor-Ends debug s =
    bind-Ends (string_length_byte debug (length (encode_utf16 s))) _
      (string_length_byte-Ends debug (length (encode_utf16 s))) λ n. tt

string_descriptor-Ends : (debug : Bool) (d : UsbDevice) (i : ℕ) → Ends (string_descriptor debug d i)
unfolding string_descriptor
string_descriptor-Ends debug d i =
    if_both Ends (i == 0) tt
      (option_both Ends (get i d.string_pool) tt λ s. text_descriptor-Ends debug s)

descriptor-Ends :
    (debug : Bool) (d : UsbDevice) (s : SetupPacket) (t : Option DescriptorType)
    → Ends (descriptor_of debug d s t)
unfolding descriptor_of
descriptor-Ends debug d s (some device) = tt
descriptor-Ends debug d s (some bos) = tt
descriptor-Ends debug d s (some configuration) = tt
descriptor-Ends debug d s (some string) =
    bind-Ends (string_descriptor debug d (low_byte s.value)) (λ desc. ok (cut_to s.length desc))
      (string_descriptor-Ends debug d (low_byte s.value)) (λ desc. tt)
descriptor-Ends debug d s (some device_qualifier) = tt
descriptor-Ends debug d s _ = tt

module _ (nusb : Nusb) (debug : Bool) (d : UsbDevice) (n : ℕ) (s : SetupPacket) (req : List ℕ) where
  to_interface-EndsAlways : (ep : UsbEndpoint) → EndsAlways (to_interface nusb debug d ep n s req)
  unfolding to_interface
  to_interface-EndsAlways ep =
      option_both EndsAlways (get_elem? d.interfaces (bit_and s.index 0xff))
        (lift-EndsAlways panic tt) λ intf. interface-EndsAlways nusb debug intf.handler ep n s req

  control_in-EndsAlways : (ep : UsbEndpoint) → EndsAlways (control_in_urb nusb debug d ep n s req)
  unfolding control_in_urb
  control_in-EndsAlways ep =
      if_both EndsAlways (is_get_descriptor s (request_from s.request))
        (lift-EndsAlways _ (descriptor-Ends debug d s (descriptor_from (s.value / 2 ^ 8))))
        (if_both EndsAlways (bit_and s.request_type 0xf == 1) (to_interface-EndsAlways ep) (
          if_both EndsAlways (bit_and s.request_type 0xf == 0)
            (option_both EndsAlways d.device_handler (lift-EndsAlways panic tt)
              λ h. device-EndsAlways nusb debug h s req)
            (lift-EndsAlways panic tt)))

  configure-EndsAlways :
      (intf : Option UsbInterface) (h : Option ℕ)
      → EndsAlways (configure_host nusb debug d intf s h)
  unfolding configure_host
  configure-EndsAlways intf none = pure-EndsAlways tt
  configure-EndsAlways intf (some h) =
      bind-EndsAlways _ _
        (attempt-EndsAlways nusb (detach_kernel_driver h (detached_number nusb debug d intf)))
        λ detached.
          bind-EndsAlways _ _ (attempt-EndsAlways nusb (set_configuration h (low_byte s.value)))
            λ configured. pure-EndsAlways tt

  control_out-EndsAlways :
      (ep : UsbEndpoint) (intf : Option UsbInterface)
      → EndsAlways (control_out_urb nusb debug d ep intf n s req)
  unfolding control_out_urb
  control_out-EndsAlways ep intf =
      if_both EndsAlways (is_set_configuration s (request_from s.request))
        (bind-EndsAlways _ _ (configure-EndsAlways intf d.device_handler) λ done. pure-EndsAlways _)
        (if_both EndsAlways (bit_and s.request_type 0xf == 1) (to_interface-EndsAlways ep) (
          if_both EndsAlways (bit_and s.request_type 0xf == 0)
            (option_both EndsAlways d.device_handler (pure-EndsAlways [])
              λ h. device-EndsAlways nusb debug h s req)
            (lift-EndsAlways panic tt)))

  other-EndsAlways :
      (ep : UsbEndpoint) (intf : Option UsbInterface)
      → EndsAlways (other_urb nusb debug d ep intf n s req)
  unfolding other_urb
  other-EndsAlways ep none = lift-EndsAlways panic tt
  other-EndsAlways ep (some intf) = interface-EndsAlways nusb debug intf.handler ep n s req

  attributes_both :
      (o : Option EndpointAttributes) {x y : Effect (List ℕ)}
      → EndsAlways x
      → EndsAlways y
      → EndsAlways (elim o [ some control ↦ x | _ ↦ y ])
  attributes_both (some control) p q = p
  attributes_both _ p q = q

  pub urb-EndsAlways :
      (ep : UsbEndpoint) (intf : Option UsbInterface)
      → EndsAlways (handle_urb nusb debug d ep intf n s req)
  unfolding handle_urb
  urb-EndsAlways ep intf =
      attributes_both (attributes_from ep.attributes)
        (direction_both EndsAlways (direction ep) (control_in-EndsAlways ep)
          (control_out-EndsAlways ep intf))
        (other-EndsAlways ep intf)
