-- ===== src/Device/Bounds.antt =====
-- How many bytes `UsbDevice::handle_urb` of src/device.rs gives back.
use nusbip.Common.{
  ℕ, ◌+◌, ◌*◌, ◌/◌, ◌%◌, ◌^◌, ◌≤◌, ◌<◌, List, [], ◌∷◌, Option, none, some, Bool, ◌==◌, ltb, if_both,
  length, length-resize, get_elem?, Outcome, ok, err, invalid_string_index, panic, hang, bind,
  subst, arith, bit_and, ◌≡◌, refl, Bool-cases, inl, inr,
}
use nusbip.Consts.{
  DescriptorType, device, configuration, string, device_qualifier, bos, EndpointAttributes, control,
  attributes_from, request_from, descriptor_from,
}
use nusbip.Endpoint.{UsbEndpoint, UsbInterface, direction}
use nusbip.Setup.{SetupPacket}
use nusbip.Device.{UsbDevice}
use nusbip.Device.Pool.{get}
use nusbip.Device.Descriptors.{
  low_byte, cut_to, encode_utf16, string_length_byte, text_descriptor, string_descriptor,
  device_descriptor, bos_descriptor, configuration_descriptor, qualifier_descriptor,
  language_descriptor,
}
use nusbip.Device.Text.{length-units_le}
use nusbip.Device.Urb.{
  descriptor_of, is_get_descriptor, is_set_configuration, to_interface, control_in_urb,
  configure_host, control_out_urb, other_urb, handle_urb,
}
use nusbip.Host.Effects.{Nusb, Effect, lift, pure, ◌>>=◌}
use nusbip.Host.{handle_urb_for_interface}
use nusbip.Host.Ends.{direction_both}
use nusbip.Host.Yields.{On, bind-Yields, pure-Yields, lift-Yields}
use nusbip.Host.Bounds.{
  AnswersFit, AtMost, interface_limit, interface-AtMost, device-AtMost, any-On,
}

-- The descriptors that grow with the device are below 2 ^ 16 bytes.
pub record DescriptorsFit (d : UsbDevice) : Type 0 where
  pub configuration_fits : length (configuration_descriptor d) < 2 ^ 16
  pub strings_fit :
      (i : ℕ) (s : List ℕ) → get i d.string_pool ≡ some s → 2 + 2 * length (encode_utf16 s) < 2 ^ 16

length-cut_to : (n : ℕ) (desc : List ℕ) → length desc < 2 ^ 16 → length (cut_to n desc) ≤ n
unfolding cut_to
length-cut_to n desc h = elim (Bool-cases (ltb n (length desc % 2 ^ 16))) [
  | inl e ↦ rw (e, length-resize n 0 desc) (omega arith)
  | inr e ↦ rw e (ground arith)
]

abbrev Short : ℕ → Outcome (List ℕ) → Type 0
Short n o = On Unit (λ (bytes : List ℕ). length bytes ≤ n) o

bind-On :
    {A B : Type 0} (P : B → Type 0) (o : Outcome A) (f : A → Outcome B)
    → ((a : A) → On Unit P (f a))
    → On Unit P (bind o f)
bind-On P (ok a) f step = step a
bind-On P (err e) f step = tt
bind-On P panic f step = tt
bind-On P hang f step = tt

bind-Short :
    (n m : ℕ) (o : Outcome (List ℕ)) (f : List ℕ → Outcome (List ℕ))
    → On Unit (λ (bytes : List ℕ). length bytes < m) o
    → ((bytes : List ℕ) → length bytes < m → Short n (f bytes))
    → Short n (bind o f)
bind-Short n m (ok a) f h step = step a h
bind-Short n m (err e) f h step = tt
bind-Short n m panic f h step = tt
bind-Short n m hang f h step = tt

abbrev Small : Outcome (List ℕ) → Type 0
Small o = On Unit (λ (bytes : List ℕ). length bytes < 2 ^ 16) o

is_control : (a : ℕ) → attributes_from a ≡ some control → a ≡ 0
unfolding attributes_from
is_control a e = ground arith

any-AtMost :
    {A : Type 0} (n : ℕ) (m : Effect A) {k : Effect (List ℕ)} → AtMost n k → AtMost n (m >>= λ a. k)
any-AtMost n m h = bind-Yields (record { yields = λ calls. any-On (m calls).0 }) λ a q. h

text_descriptor-Small :
    (debug : Bool) (s : List ℕ)
    → 2 + 2 * length (encode_utf16 s) < 2 ^ 16
    → Small (text_descriptor debug s)
unfolding text_descriptor
text_descriptor-Small debug s h =
    bind-On (λ (bytes : List ℕ). length bytes < 2 ^ 16)
      (string_length_byte debug (length (encode_utf16 s))) _
      λ n. omega (arith, length-units_le (encode_utf16 s))

module _ (debug : Bool) (d : UsbDevice) (fits : DescriptorsFit d) where
  named-Small :
      (i : ℕ) (o : Option (List ℕ))
      → get i d.string_pool ≡ o
      → Small (elim o [ some s ↦ text_descriptor debug s | none ↦ err (invalid_string_index i) ])
  named-Small i none e = tt
  named-Small i (some s) e = text_descriptor-Small debug s (fits.strings_fit i s e)

  string_descriptor-Small : (i : ℕ) → Small (string_descriptor debug d i)
  unfolding string_descriptor language_descriptor
  string_descriptor-Small i =
      if_both Small (i == 0) (omega arith) (named-Small i (get i d.string_pool) refl)

  descriptor-Short :
      (s : SetupPacket) (t : Option DescriptorType) → Short s.length (descriptor_of debug d s t)
  unfolding descriptor_of device_descriptor bos_descriptor qualifier_descriptor
  descriptor-Short s (some device) = length-cut_to s.length (device_descriptor d) (omega arith)
  descriptor-Short s (some bos) = length-cut_to s.length bos_descriptor (omega arith)
  descriptor-Short s (some configuration) =
      length-cut_to s.length (configuration_descriptor d) fits.configuration_fits
  descriptor-Short s (some string) =
      bind-Short s.length (2 ^ 16) (string_descriptor debug d (low_byte s.value)) _
        (string_descriptor-Small (low_byte s.value)) (length-cut_to s.length)
  descriptor-Short s (some device_qualifier) =
      length-cut_to s.length (qualifier_descriptor d) (omega arith)
  descriptor-Short s _ = omega arith

-- The bound for an endpoint that was found: `wLength` for a control endpoint, and that of the
-- interface for any other.
abbrev pub urb_limit : Nusb → UsbEndpoint → Option UsbInterface → ℕ → SetupPacket → ℕ
urb_limit nusb ep intf n setup = elim (attributes_from ep.attributes) as (λ w. ℕ) [
  | some control ↦ setup.length
  | _ ↦ elim intf as (λ w. ℕ) [ none ↦ 0 | some i ↦ interface_limit nusb i.handler ep n setup ]
]

module _ (nusb : Nusb) (debug : Bool) (d : UsbDevice) (answers : AnswersFit nusb)
    (fits : DescriptorsFit d) (n : ℕ) (s : SetupPacket) (req : List ℕ) where
  option_AtMost :
      {A : Type 0} (m : ℕ) (o : Option A) {x : Effect (List ℕ)} {f : A → Effect (List ℕ)}
      → AtMost m x
      → ((a : A) → AtMost m (f a))
      → AtMost m (elim o [ some a ↦ f a | none ↦ x ])
  option_AtMost m none p q = p
  option_AtMost m (some a) p q = q a

  panics-AtMost : (m : ℕ) → AtMost m (lift panic)
  panics-AtMost m = lift-Yields panic tt

  nothing-AtMost : (m : ℕ) → AtMost m (pure [])
  nothing-AtMost m = pure-Yields [] (omega arith)

  to_interface-AtMost :
      (ep : UsbEndpoint)
      → ep.attributes ≡ 0
      → AtMost s.length (to_interface nusb debug d ep n s req)
  unfolding to_interface
  to_interface-AtMost ep e =
      option_AtMost s.length (get_elem? d.interfaces (bit_and s.index 0xff))
        (panics-AtMost s.length)
        λ intf.
          subst (λ (l : ℕ). AtMost l (handle_urb_for_interface nusb debug intf.handler ep n s req))
            (rw e refl) (interface-AtMost nusb debug answers intf.handler ep n s req)

  control_in-AtMost :
      (ep : UsbEndpoint)
      → ep.attributes ≡ 0
      → AtMost s.length (control_in_urb nusb debug d ep n s req)
  unfolding control_in_urb
  control_in-AtMost ep e =
      if_both (AtMost s.length) (is_get_descriptor s (request_from s.request))
        (lift-Yields _ (descriptor-Short debug d fits s (descriptor_from (s.value / 2 ^ 8))))
        (if_both (AtMost s.length) (bit_and s.request_type 0xf == 1) (to_interface-AtMost ep e) (
          if_both (AtMost s.length) (bit_and s.request_type 0xf == 0)
            (option_AtMost s.length d.device_handler (panics-AtMost s.length)
              λ h. device-AtMost nusb debug answers h s req)
            (panics-AtMost s.length)))

  control_out-AtMost :
      (ep : UsbEndpoint) (intf : Option UsbInterface)
      → ep.attributes ≡ 0
      → AtMost s.length (control_out_urb nusb debug d ep intf n s req)
  unfolding control_out_urb
  control_out-AtMost ep intf e =
      if_both (AtMost s.length) (is_set_configuration s (request_from s.request))
        (any-AtMost s.length (configure_host nusb debug d intf s d.device_handler)
          (pure-Yields _ (length-cut_to s.length (d.configuration_value ∷ []) (omega arith))))
        (if_both (AtMost s.length) (bit_and s.request_type 0xf == 1) (to_interface-AtMost ep e) (
          if_both (AtMost s.length) (bit_and s.request_type 0xf == 0)
            (option_AtMost s.length d.device_handler (nothing-AtMost s.length)
              λ h. device-AtMost nusb debug answers h s req)
            (panics-AtMost s.length)))

  other-AtMost :
      (ep : UsbEndpoint) (intf : Option UsbInterface)
      → AtMost
          (elim intf as (λ w. ℕ) [ none ↦ 0 | some i ↦ interface_limit nusb i.handler ep n s ])
          (other_urb nusb debug d ep intf n s req)
  unfolding other_urb
  other-AtMost ep none = panics-AtMost 0
  other-AtMost ep (some intf) = interface-AtMost nusb debug answers intf.handler ep n s req

  by_attributes :
      (ep : UsbEndpoint) (l : ℕ) (o : Option EndpointAttributes) {x y : Effect (List ℕ)}
      → attributes_from ep.attributes ≡ o
      → (ep.attributes ≡ 0 → AtMost s.length x)
      → AtMost l y
      → AtMost
          (elim o as (λ w. ℕ) [ some control ↦ s.length | _ ↦ l ])
          (elim o [ some control ↦ x | _ ↦ y ])
  by_attributes ep l (some control) e p q = p (is_control ep.attributes e)
  by_attributes ep l _ e p q = q

  pub urb-AtMost :
      (ep : UsbEndpoint) (intf : Option UsbInterface)
      → AtMost (urb_limit nusb ep intf n s) (handle_urb nusb debug d ep intf n s req)
  unfolding handle_urb
  urb-AtMost ep intf =
      by_attributes ep _ (attributes_from ep.attributes) refl
        (λ e.
          direction_both (AtMost s.length) (direction ep) (control_in-AtMost ep e)
            (control_out-AtMost ep intf e))
        (other-AtMost ep intf)
