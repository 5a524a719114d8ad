-- ===== src/Device/Calls.antt =====
-- Which calls of the USB library `UsbDevice::handle_urb` of src/device.rs makes.
use nusbip.Common.{
  ℕ, zero, suc, List, [], ◌∷◌, Option, none, some, Bool, ◌==◌, if_both, bit_and, get_elem?, Among,
  panic, inl, inr, ◌⊎◌, ◌≡◌, refl,
}
use nusbip.Consts.{EndpointAttributes, control, attributes_from, request_from}
use nusbip.Endpoint.{UsbEndpoint, UsbInterface, direction}
use nusbip.Setup.{SetupPacket}
use nusbip.Device.{UsbDevice, find_endpoint, find_interface, find_ep}
use nusbip.Device.Descriptors.{low_byte}
use nusbip.Device.Urb.{
  is_get_descriptor, is_set_configuration, to_interface, control_in_urb, detached_number,
  configure_host, control_out_urb, other_urb, handle_urb,
}
use nusbip.Export.Path.{bus_id_of}
use nusbip.Host.Effects.{
  open_device, Nusb, Call, Effect, lift, detach_kernel_driver, set_configuration,
}
use nusbip.Host.{handle_urb_for_interface, handle_urb_for_device}
use nusbip.Host.Ends.{direction_both}
use nusbip.Host.Calls.{
  OnInterface, OnDevice, Makes, bind-Makes, lift-Makes, pure-Makes, attempt-Makes, interface-Makes,
  device-Makes, Makes-weaken,
}

-- The opening of a device of the host that has the bus id.
abbrev pub OpensId : List ℕ → Call → Type 0
OpensId b (open_device info) = bus_id_of info ≡ b
OpensId b _ = ⊥

-- A call that names the handle of an interface of the device, or its own handle, or opens a device of its
-- bus id. Every call but the listing of all devices is of one of these kinds.
abbrev pub About : UsbDevice → Call → Type 0
About d call =
    ((intf : UsbInterface) × Among intf d.interfaces × OnInterface intf.handler call)
    ⊎ (((h : ℕ) × (d.device_handler ≡ some h) × OnDevice h call) ⊎ OpensId d.bus_id call)

-- An endpoint is found in an interface of the device, or in none.
abbrev pub IsOwn : UsbDevice → Option UsbInterface → Type 0
IsOwn d none = Unit
IsOwn d (some intf) = Among intf d.interfaces

-- What is found at an index stands in the list.
abbrev FoundAmong : {A : Type 0} → List A → Option A → Type 0
FoundAmong xs none = Unit
FoundAmong xs (some a) = Among a xs

later-FoundAmong :
    {A : Type 0} (x : A) (xs : List A) (o : Option A) → FoundAmong xs o → FoundAmong (x ∷ xs) o
later-FoundAmong x xs none h = tt
later-FoundAmong x xs (some a) h = inr h

get_elem-FoundAmong : {A : Type 0} (xs : List A) (i : ℕ) → FoundAmong xs (get_elem? xs i)
get_elem-FoundAmong [] i = tt
get_elem-FoundAmong (x ∷ xs) zero = inl refl
get_elem-FoundAmong (x ∷ xs) (suc i) =
    later-FoundAmong x xs (get_elem? xs i) (get_elem-FoundAmong xs i)

module _ (nusb : Nusb) (debug : Bool) (d : UsbDevice) (n : ℕ) (s : SetupPacket) (req : List ℕ) where
  own-Makes :
      (ep : UsbEndpoint) (intf : UsbInterface)
      → Among intf d.interfaces
      → Makes (About d) (handle_urb_for_interface nusb debug intf.handler ep n s req)
  own-Makes ep intf own =
      Makes-weaken (λ call on. inl (intf, own, on))
        (interface-Makes nusb debug intf.handler ep n s req)

  handle-Makes :
      (h : ℕ)
      → d.device_handler ≡ some h
      → Makes (About d) (handle_urb_for_device nusb debug h s req)
  handle-Makes h e =
      Makes-weaken (λ call on. inr (inl (h, e, on))) (device-Makes nusb debug h s req)

  at_index :
      (ep : UsbEndpoint) (o : Option UsbInterface)
      → FoundAmong d.interfaces o
      → Makes {A = List ℕ} (About d) (elim o [
        | some intf ↦ handle_urb_for_interface nusb debug intf.handler ep n s req
        | none ↦ lift panic
      ])
  at_index ep none h = lift-Makes panic
  at_index ep (some intf) h = own-Makes ep intf h

  to_interface-Makes : (ep : UsbEndpoint) → Makes (About d) (to_interface nusb debug d ep n s req)
  unfolding to_interface
  to_interface-Makes ep =
      at_index ep (get_elem? d.interfaces (bit_and s.index 0xff))
        (get_elem-FoundAmong d.interfaces _)

  by_handle :
      (o : Option ℕ) {x : Effect (List ℕ)}
      → d.device_handler ≡ o
      → Makes (About d) x
      → Makes (About d) (elim o [ some h ↦ handle_urb_for_device nusb debug h s req | none ↦ x ])
  by_handle none e p = p
  by_handle (some h) e p = handle-Makes h e

  control_in-Makes : (ep : UsbEndpoint) → Makes (About d) (control_in_urb nusb debug d ep n s req)
  unfolding control_in_urb
  control_in-Makes ep =
      if_both (Makes (About d)) (is_get_descriptor s (request_from s.request)) (lift-Makes _) (
        if_both (Makes (About d)) (bit_and s.request_type 0xf == 1) (to_interface-Makes ep) (
          if_both (Makes (About d)) (bit_and s.request_type 0xf == 0)
            (by_handle d.device_handler refl (lift-Makes panic)) (lift-Makes panic)))

  configure-Makes :
      (intf : Option UsbInterface) (o : Option ℕ)
      → d.device_handler ≡ o
      → Makes (About d) (configure_host nusb debug d intf s o)
  unfolding configure_host
  configure-Makes intf none e = pure-Makes tt
  configure-Makes intf (some h) e =
      bind-Makes _ _
        (attempt-Makes nusb (detach_kernel_driver h (detached_number nusb debug d intf))
          (inr (inl (h, e, refl))))
        λ detached.
          bind-Makes _ _
            (attempt-Makes nusb (set_configuration h (low_byte s.value)) (inr (inl (h, e, refl))))
            λ configured. pure-Makes tt

  control_out-Makes :
      (ep : UsbEndpoint) (intf : Option UsbInterface)
      → Makes (About d) (control_out_urb nusb debug d ep intf n s req)
  unfolding control_out_urb
  control_out-Makes ep intf =
      if_both (Makes (About d)) (is_set_configuration s (request_from s.request))
        (bind-Makes _ _ (configure-Makes intf d.device_handler refl) λ done. pure-Makes _)
        (if_both (Makes (About d)) (bit_and s.request_type 0xf == 1) (to_interface-Makes ep) (
          if_both (Makes (About d)) (bit_and s.request_type 0xf == 0)
            (by_handle d.device_handler refl (pure-Makes [])) (lift-Makes panic)))

  other-Makes :
      (ep : UsbEndpoint) (intf : Option UsbInterface)
      → IsOwn d intf
      → Makes (About d) (other_urb nusb debug d ep intf n s req)
  unfolding other_urb
  other-Makes ep none own = lift-Makes panic
  other-Makes ep (some intf) own = own-Makes ep intf own

  attributes_both :
      (o : Option EndpointAttributes) {x y : Effect (List ℕ)}
      → Makes (About d) x
      → Makes (About d) y
      → Makes (About d) (elim o [ some control ↦ x | _ ↦ y ])
  attributes_both (some control) p q = p
  attributes_both _ p q = q

  pub urb-Makes :
      (ep : UsbEndpoint) (intf : Option UsbInterface)
      → IsOwn d intf
      → Makes (About d) (handle_urb nusb debug d ep intf n s req)
  unfolding handle_urb
  urb-Makes ep intf own =
      attributes_both (attributes_from ep.attributes)
        (direction_both (Makes (About d)) (direction ep) (control_in-Makes ep)
          (control_out-Makes ep intf))
        (other-Makes ep intf own)

-- The interface in which an endpoint is found.
abbrev pub FoundOwn : UsbDevice → Option (UsbEndpoint × Option UsbInterface) → Type 0
FoundOwn d none = Unit
FoundOwn d (some (ep, intf)) = IsOwn d intf

abbrev FoundIn : List UsbInterface → Option (UsbEndpoint × Option UsbInterface) → Type 0
FoundIn is none = Unit
FoundIn is (some (ep, none)) = ⊥
FoundIn is (some (ep, some intf)) = Among intf is

later-FoundIn :
    (i : UsbInterface) (is : List UsbInterface) (o : Option (UsbEndpoint × Option UsbInterface))
    → FoundIn is o
    → FoundIn (i ∷ is) o
later-FoundIn i is none h = tt
later-FoundIn i is (some (ep, none)) h = absurd h
later-FoundIn i is (some (ep, some intf)) h = inr h

found_here :
    (i : UsbInterface) (is : List UsbInterface) (o : Option UsbEndpoint)
    (r : Option (UsbEndpoint × Option UsbInterface))
    → FoundIn is r
    → FoundIn (i ∷ is) (elim o [ some e ↦ some (e, some i) | none ↦ r ])
found_here i is none r h = later-FoundIn i is r h
found_here i is (some e) r h = inl refl

find_interface-FoundIn : (ep : ℕ) (is : List UsbInterface) → FoundIn is (find_interface ep is)
unfolding find_interface
find_interface-FoundIn ep [] = tt
find_interface-FoundIn ep (i ∷ is) =
    found_here i is (find_endpoint ep i.endpoints) (find_interface ep is)
      (find_interface-FoundIn ep is)

FoundIn-FoundOwn :
    (d : UsbDevice) (o : Option (UsbEndpoint × Option UsbInterface))
    → FoundIn d.interfaces o
    → FoundOwn d o
FoundIn-FoundOwn d none h = tt
FoundIn-FoundOwn d (some (ep, none)) h = tt
FoundIn-FoundOwn d (some (ep, some intf)) h = h

pub find_ep-FoundOwn : (d : UsbDevice) (ep : ℕ) → FoundOwn d (find_ep d ep)
unfolding find_ep
find_ep-FoundOwn d ep = if_both (FoundOwn d) (ep == d.ep0_in.address) tt (
    if_both (FoundOwn d) (ep == d.ep0_out.address) tt
      (FoundIn-FoundOwn d _ (find_interface-FoundIn ep d.interfaces)))
