-- ===== src/Host/Ends.antt =====
-- How a request that src/host.rs passes on ends.
use nusbip.Common.{
  ℕ, ◌/◌, ◌^◌, List, [], Bool, ◌&&◌, ◌==◌, Outcome, ok, err, panic, hang, Ends, if_both, bit_and,
}
use nusbip.Endpoint.{UsbEndpoint, Direction, in_dir, out_dir, direction}
use nusbip.Setup.{SetupPacket}
use nusbip.Host.Control.{control_type, recipient}
use nusbip.Host.Effects.{
  Nusb, Call, Answer, answered, failed, Effect, ◌>>=◌, continue, pure, lift, ask, attempt, or_error,
  or_empty, Target,
}
use nusbip.Host.{
  requested_len, control_transfer, interrupt_transfer, bulk_transfer, handle_urb_for_interface,
  handle_urb_for_device,
}

-- After any calls, the computation ends.
pub record EndsAlways {A : Type 0} (m : Effect A) : Type 0 where
  pub ends : (calls : List Call) → Ends (m calls).0

pub lift-EndsAlways : {A : Type 0} (o : Outcome A) → Ends o → EndsAlways (lift o)
lift-EndsAlways o h = record { ends = λ calls. h }

pub pure-EndsAlways : {A : Type 0} (a : A) → EndsAlways (pure a)
pure-EndsAlways a = record { ends = λ calls. tt }

continue-Ends :
    {A B : Type 0} (p : Outcome A × List Call) (f : A → Effect B)
    → Ends p.0
    → ((a : A) → EndsAlways (f a))
    → Ends (continue p f).0
continue-Ends (ok a, calls) f h step = (step a).ends calls
continue-Ends (err e, calls) f h step = tt
continue-Ends (panic, calls) f h step = tt
continue-Ends (hang, calls) f h step = h

pub bind-EndsAlways :
    {A B : Type 0} (m : Effect A) (f : A → Effect B)
    → EndsAlways m
    → ((a : A) → EndsAlways (f a))
    → EndsAlways (m >>= f)
bind-EndsAlways m f h step = record {
  ends = λ calls. continue-Ends (m calls) f (h.ends calls) step;
}

or_error-Ends : (a : Answer) → Ends (or_error a)
or_error-Ends (answered bytes) = tt
or_error-Ends (failed e) = tt

or_empty-Ends : (a : Answer) → Ends (or_empty a)
or_empty-Ends (answered bytes) = tt
or_empty-Ends (failed e) = tt

pub ask-EndsAlways : (nusb : Nusb) (call : Call) → EndsAlways (ask nusb call)
ask-EndsAlways nusb call = record { ends = λ calls. or_error-Ends (nusb.answer calls call) }

pub attempt-EndsAlways : (nusb : Nusb) (call : Call) → EndsAlways (attempt nusb call)
attempt-EndsAlways nusb call = record { ends = λ calls. tt }

pub direction_both {ℓ κ} :
    {A : Type ℓ} (P : A → Type κ) (d : Direction) {x y : A}
    → P x
    → P y
    → P (elim d [ in_dir ↦ x | out_dir ↦ y ])
direction_both P in_dir p q = p
direction_both P out_dir p q = q

control_type-Ends : (s : SetupPacket) → Ends (control_type s)
unfolding control_type
control_type-Ends s =
    let kind = bit_and (s.request_type / 2 ^ 5) 3 in
    if_both Ends (kind == 0) tt (if_both Ends (kind == 1) tt (if_both Ends (kind == 2) tt tt))

recipient-Ends : (s : SetupPacket) → Ends (recipient s)
unfolding recipient
recipient-Ends s =
    let to = bit_and s.request_type 0x1f in
    if_both Ends (to == 0) tt
      (if_both Ends (to == 1) tt (if_both Ends (to == 2) tt (if_both Ends (to == 3) tt tt)))

requested_len-Ends : (debug : Bool) (n p : ℕ) → Ends (requested_len debug n p)
unfolding requested_len
requested_len-Ends debug n p = if_both Ends (debug && n == 0) tt (if_both Ends (p == 0) tt tt)

module _ (nusb : Nusb) (debug : Bool) where
  attempt-or_empty : (call : Call) → EndsAlways (attempt nusb call >>= λ a. lift (or_empty a))
  attempt-or_empty call =
      bind-EndsAlways _ _ (attempt-EndsAlways nusb call)
        λ a. lift-EndsAlways (or_empty a) (or_empty-Ends a)

  asked :
      {B : Type 0} (call : Call) (f : List ℕ → Effect B)
      → ((a : List ℕ) → EndsAlways (f a))
      → EndsAlways (ask nusb call >>= f)
  asked call f step = bind-EndsAlways (ask nusb call) f (ask-EndsAlways nusb call) step

  control_transfer-EndsAlways :
      (t : Target) (dir : Direction) (s : SetupPacket) (req : List ℕ)
      → EndsAlways (control_transfer nusb debug t dir s req)
  unfolding control_transfer
  control_transfer-EndsAlways t dir s req =
      bind-EndsAlways _ _ (lift-EndsAlways _ (control_type-Ends s)) λ kind.
        bind-EndsAlways _ _ (lift-EndsAlways _ (recipient-Ends s)) λ to.
          direction_both EndsAlways dir (attempt-or_empty _) (asked _ _ λ sent. pure-EndsAlways [])

  interrupt_transfer-EndsAlways :
      (i : ℕ) (ep : UsbEndpoint) (n : ℕ) (req : List ℕ)
      → EndsAlways (interrupt_transfer nusb debug i ep n req)
  unfolding interrupt_transfer
  interrupt_transfer-EndsAlways i ep n req =
      direction_both EndsAlways (direction ep) (asked _ _ λ opened. attempt-or_empty _)
        (asked _ _ λ opened. asked _ _ λ written. asked _ _ λ flushed. pure-EndsAlways [])

  bulk_transfer-EndsAlways :
      (i : ℕ) (ep : UsbEndpoint) (n : ℕ) (req : List ℕ)
      → EndsAlways (bulk_transfer nusb debug i ep n req)
  unfolding bulk_transfer
  bulk_transfer-EndsAlways i ep n req =
      direction_both EndsAlways (direction ep)
        (asked _ _ λ opened.
          bind-EndsAlways _ _
            (lift-EndsAlways _ (requested_len-Ends debug n (nusb.max_packet_size i ep.address)))
            λ len. ask-EndsAlways nusb _)
        (asked _ _ λ opened. asked _ _ λ written. asked _ _ λ flushed. pure-EndsAlways [])

  pub interface-EndsAlways :
      (i : ℕ) (ep : UsbEndpoint) (n : ℕ) (s : SetupPacket) (req : List ℕ)
      → EndsAlways (handle_urb_for_interface nusb debug i ep n s req)
  unfolding handle_urb_for_interface
  interface-EndsAlways i ep n s req =
      if_both EndsAlways (ep.attributes == 0) (control_transfer-EndsAlways _ (direction ep) s req) (
        if_both EndsAlways (ep.attributes == 3) (interrupt_transfer-EndsAlways i ep n req) (
          if_both EndsAlways (ep.attributes == 2) (bulk_transfer-EndsAlways i ep n req)
            (pure-EndsAlways [])))

  pub device-EndsAlways :
      (device : ℕ) (s : SetupPacket) (req : List ℕ)
      → EndsAlways (handle_urb_for_device nusb debug device s req)
  unfolding handle_urb_for_device
  device-EndsAlways device s req = control_transfer-EndsAlways _ _ s req
