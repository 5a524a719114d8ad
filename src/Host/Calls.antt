-- ===== src/Host/Calls.antt =====
-- Which calls of the USB library a request makes that src/host.rs passes on.
use nusbip.Common.{ℕ, List, [], ◌∷◌, Bool, ◌==◌, if_both, Outcome, ok, err, panic, hang, ◌≡◌, refl}
use nusbip.Endpoint.{UsbEndpoint, Direction, direction}
use nusbip.Setup.{SetupPacket}
use nusbip.Host.Control.{ControlIn, ControlOut, control_type, recipient}
use nusbip.Host.Effects.{
  active_configuration, attach_kernel_driver, claim_interface, reset_device, Nusb, Call, Effect,
  ◌>>=◌, continue, pure, lift, ask, attempt, or_empty, Target, interface_target, device_target,
  control_in, control_out, open_endpoint, read_exact, transfer_blocking, write_all, flush,
  detach_kernel_driver, set_configuration,
}
use nusbip.Host.Ends.{direction_both}
use nusbip.Host.{
  requested_len, control_transfer, interrupt_transfer, bulk_transfer, handle_urb_for_interface,
  handle_urb_for_device,
}

-- A call that names the handle of an interface.
abbrev pub OnInterface : ℕ → Call → Type 0
OnInterface i (control_in (interface_target j) c) = j ≡ i
OnInterface i (control_out (interface_target j) c) = j ≡ i
OnInterface i (open_endpoint j a k d) = j ≡ i
OnInterface i (read_exact j a n) = j ≡ i
OnInterface i (transfer_blocking j a n) = j ≡ i
OnInterface i (write_all j a bytes) = j ≡ i
OnInterface i (flush j a) = j ≡ i
OnInterface i _ = ⊥

-- A call that names the handle of a device.
abbrev pub OnDevice : ℕ → Call → Type 0
OnDevice h (control_in (device_target j) c) = j ≡ h
OnDevice h (control_out (device_target j) c) = j ≡ h
OnDevice h (active_configuration j) = j ≡ h
OnDevice h (attach_kernel_driver j n) = j ≡ h
OnDevice h (detach_kernel_driver j n) = j ≡ h
OnDevice h (set_configuration j n) = j ≡ h
OnDevice h (claim_interface j n) = j ≡ h
OnDevice h (reset_device j) = j ≡ h
OnDevice h _ = ⊥

-- Calls that were made after others, the last first.
pub data Extends (P : Call → Type 0) (calls : List Call) : List Call → Type 0 where
  no_more : Extends P calls calls
  one_more :
      {calls' : List Call} {c : Call} → P c → Extends P calls calls' → Extends P calls (c ∷ calls')

pub Extends-trans :
    {P : Call → Type 0} {xs ys zs : List Call} → Extends P xs ys → Extends P ys zs → Extends P xs zs
Extends-trans p no_more = p
Extends-trans p (one_more h q) = one_more h (Extends-trans p q)

pub record Makes {A : Type 0} (P : Call → Type 0) (m : Effect A) : Type 0 where
  pub made : (calls : List Call) → Extends P calls (m calls).1

continue-Extends :
    {A B : Type 0} {P : Call → Type 0} (xs : List Call) (p : Outcome A × List Call)
    (f : A → Effect B)
    → Extends P xs p.1
    → ((a : A) → Makes P (f a))
    → Extends P xs (continue p f).1
continue-Extends xs (ok a, ys) f h step = Extends-trans h ((step a).made ys)
continue-Extends xs (err e, ys) f h step = h
continue-Extends xs (panic, ys) f h step = h
continue-Extends xs (hang, ys) f h step = h

pub bind-Makes :
    {A B : Type 0} {P : Call → Type 0} (m : Effect A) (f : A → Effect B)
    → Makes P m
    → ((a : A) → Makes P (f a))
    → Makes P (m >>= f)
bind-Makes m f h step = record {
  made = λ calls. continue-Extends calls (m calls) f (h.made calls) step;
}

pub lift-Makes : {A : Type 0} {P : Call → Type 0} (o : Outcome A) → Makes P (lift o)
lift-Makes o = record { made = λ calls. no_more }

pub pure-Makes : {A : Type 0} {P : Call → Type 0} (a : A) → Makes P (pure a)
pure-Makes a = record { made = λ calls. no_more }

module _ (nusb : Nusb) where
  pub attempt-Makes : {P : Call → Type 0} (c : Call) → P c → Makes P (attempt nusb c)
  attempt-Makes c h = record { made = λ calls. one_more h no_more }

  ask-Makes : {P : Call → Type 0} (c : Call) → P c → Makes P (ask nusb c)
  ask-Makes c h = record { made = λ calls. one_more h no_more }

  asked-Makes :
      {B : Type 0} {P : Call → Type 0} (c : Call) {f : List ℕ → Effect B}
      → P c
      → ((a : List ℕ) → Makes P (f a))
      → Makes P (ask nusb c >>= f)
  asked-Makes c h step = bind-Makes (ask nusb c) _ (ask-Makes c h) step

  attempted-Makes :
      {P : Call → Type 0} (c : Call) → P c → Makes P (attempt nusb c >>= λ a. lift (or_empty a))
  attempted-Makes c h =
      bind-Makes (attempt nusb c) _ (attempt-Makes c h) λ a. lift-Makes (or_empty a)

  written-Makes :
      {P : Call → Type 0} (x y z : Call)
      → P x
      → P y
      → P z
      → Makes {A = List ℕ} P (ask nusb x >>= λ o. ask nusb y >>= λ w. ask nusb z >>= λ f. pure [])
  written-Makes x y z p q r =
      asked-Makes x p λ o. asked-Makes y q λ w. asked-Makes z r λ f. pure-Makes []

  control-Makes :
      {P : Call → Type 0} (debug : Bool) (t : Target) (dir : Direction) (s : SetupPacket)
      (req : List ℕ)
      → ((c : ControlIn) → P (control_in t c))
      → ((c : ControlOut) → P (control_out t c))
      → Makes P (control_transfer nusb debug t dir s req)
  unfolding control_transfer
  control-Makes {P} debug t dir s req p q = bind-Makes _ _ (lift-Makes (control_type s)) λ kind.
      bind-Makes _ _ (lift-Makes (recipient s)) λ to.
        direction_both (Makes P) dir (attempted-Makes _ (p _))
          (asked-Makes _ (q _) λ sent. pure-Makes [])

  interrupt-Makes :
      (debug : Bool) (i : ℕ) (ep : UsbEndpoint) (n : ℕ) (req : List ℕ)
      → Makes (OnInterface i) (interrupt_transfer nusb debug i ep n req)
  unfolding interrupt_transfer
  interrupt-Makes debug i ep n req =
      direction_both (Makes (OnInterface i)) (direction ep)
        (asked-Makes _ refl λ opened. attempted-Makes _ refl) (written-Makes _ _ _ refl refl refl)

  bulk-Makes :
      (debug : Bool) (i : ℕ) (ep : UsbEndpoint) (n : ℕ) (req : List ℕ)
      → Makes (OnInterface i) (bulk_transfer nusb debug i ep n req)
  unfolding bulk_transfer
  bulk-Makes debug i ep n req =
      direction_both (Makes (OnInterface i)) (direction ep)
        (asked-Makes _ refl λ opened.
          bind-Makes _ _ (lift-Makes (requested_len debug n (nusb.max_packet_size i ep.address)))
            λ k. ask-Makes _ refl)
        (written-Makes _ _ _ refl refl refl)

  pub interface-Makes :
      (debug : Bool) (i : ℕ) (ep : UsbEndpoint) (n : ℕ) (s : SetupPacket) (req : List ℕ)
      → Makes (OnInterface i) (handle_urb_for_interface nusb debug i ep n s req)
  unfolding handle_urb_for_interface
  interface-Makes debug i ep n s req =
      if_both (Makes (OnInterface i)) (ep.attributes == 0)
        (control-Makes debug _ (direction ep) s req (λ c. refl) (λ c. refl))
        (if_both (Makes (OnInterface i)) (ep.attributes == 3) (interrupt-Makes debug i ep n req) (
          if_both (Makes (OnInterface i)) (ep.attributes == 2) (bulk-Makes debug i ep n req)
            (pure-Makes [])))

  pub device-Makes :
      (debug : Bool) (h : ℕ) (s : SetupPacket) (req : List ℕ)
      → Makes (OnDevice h) (handle_urb_for_device nusb debug h s req)
  unfolding handle_urb_for_device
  device-Makes debug h s req = control-Makes debug (device_target h) _ s req (λ c. refl) (λ c. refl)

pub Extends-weaken :
    {P Q : Call → Type 0} {xs ys : List Call}
    → ((c : Call) → P c → Q c)
    → Extends P xs ys
    → Extends Q xs ys
Extends-weaken f no_more = no_more
Extends-weaken f (one_more {c} h p) = one_more (f c h) (Extends-weaken f p)

pub Makes-weaken :
    {A : Type 0} {P Q : Call → Type 0} {m : Effect A}
    → ((c : Call) → P c → Q c)
    → Makes P m
    → Makes Q m
Makes-weaken f h = record { made = λ calls. Extends-weaken f (h.made calls) }
