-- ===== src/Host/Bounds.antt =====
-- How many bytes a request that src/host.rs passes on gives back, if the USB library gives no more than it is
-- asked for.
use nusbip.Common.{
  ℕ, ◌+◌, ◌-◌, ◌*◌, ◌/◌, ◌%◌, ◌^◌, ◌≤◌, List, [], Bool, true, false, ◌&&◌, ◌==◌, if◌then◌else◌,
  if_both, length, Outcome, ok, err, panic, hang, arith,
}
use native.Mathlib.Nat.{div-add-mod}
use nusbip.Endpoint.{UsbEndpoint, Direction, direction}
use nusbip.Setup.{SetupPacket}
use nusbip.Host.Control.{ControlIn, control_type, recipient, control_in_of}
use nusbip.Host.Effects.{
  Nusb, Call, Answer, answered, failed, Effect, ◌>>=◌, pure, lift, ask, attempt, or_error, or_empty,
  Target, control_in, read_exact, transfer_blocking,
}
use nusbip.Host.Ends.{direction_both}
use nusbip.Host.Yields.{On, Yields, bind-Yields, pure-Yields, lift-Yields}
use nusbip.Host.{
  requested_len, control_transfer, interrupt_transfer, bulk_transfer, handle_urb_for_interface,
  handle_urb_for_device,
}

abbrev pub Within : ℕ → Answer → Type 0
Within n (answered bytes) = length bytes ≤ n
Within n (failed e) = Unit

-- The library answers a transfer with no more bytes than it is asked for.
pub record AnswersFit (nusb : Nusb) : Type 0 where
  pub control_fits :
      (calls : List Call) (t : Target) (c : ControlIn)
      → Within c.length (nusb.answer calls (control_in t c))
  pub reads_fit : (calls : List Call) (i a n : ℕ) → Within n (nusb.answer calls (read_exact i a n))
  pub transfers_fit :
      (calls : List Call) (i a n : ℕ) → Within n (nusb.answer calls (transfer_blocking i a n))

-- A computation that gives at most `n` bytes, if any.
abbrev pub AtMost : ℕ → Effect (List ℕ) → Type 0
AtMost n m = Yields Unit (λ (bytes : List ℕ). length bytes ≤ n) m

-- The bound for an endpoint: `wLength` for a control transfer, the length of the request for an interrupt
-- transfer, and less than a packet more for a bulk transfer.
abbrev pub interface_limit : Nusb → ℕ → UsbEndpoint → ℕ → SetupPacket → ℕ
interface_limit nusb i ep n setup =
    if ep.attributes == 0
    then setup.length
    else if ep.attributes == 3
    then n
    else if ep.attributes == 2
    then (n + 2 ^ 32 - 1) % 2 ^ 32 + nusb.max_packet_size i ep.address
    else 0

Within-weaken : (m n : ℕ) (a : Answer) → m ≤ n → Within m a → Within n a
Within-weaken m n (answered bytes) h w = omega arith
Within-weaken m n (failed e) h w = tt

or_empty-On :
    (n : ℕ) (a : Answer) → Within n a → On Unit (λ (b : List ℕ). length b ≤ n) (or_empty a)
or_empty-On n (answered bytes) h = h
or_empty-On n (failed e) h = omega arith

pub or_error-On :
    (n : ℕ) (a : Answer) → Within n a → On Unit (λ (b : List ℕ). length b ≤ n) (or_error a)
or_error-On n (answered bytes) h = h
or_error-On n (failed e) h = tt

pub any-On : {A : Type 0} (o : Outcome A) → On Unit (λ (a : A). Unit {0}) o
any-On (ok a) = tt
any-On (err e) = tt
any-On panic = tt
any-On hang = tt

pub lifted-Yields :
    {A B : Type 0} {P : B → Type 0} (o : Outcome A) {f : A → Effect B}
    → ((a : A) → Yields Unit P (f a))
    → Yields Unit P (lift o >>= f)
lifted-Yields o step = bind-Yields (lift-Yields o (any-On o)) λ a h. step a

pub either-AtMost :
    (b : Bool) {l l' : ℕ} {m m' : Effect (List ℕ)}
    → AtMost l m
    → AtMost l' m'
    → AtMost (if b then l else l') (if b then m else m')
either-AtMost true p q = p
either-AtMost false p q = q

round_up : (x p : ℕ) → (x / p + 1) * p ≤ x + p
round_up x p = omega (arith, div-add-mod x p)

requested-On :
    (debug : Bool) (n p : ℕ)
    → On Unit (λ (k : ℕ). k ≤ (n + 2 ^ 32 - 1) % 2 ^ 32 + p) (requested_len debug n p)
unfolding requested_len
requested-On debug n p =
    if_both (On Unit (λ (k : ℕ). k ≤ (n + 2 ^ 32 - 1) % 2 ^ 32 + p)) (debug && n == 0) tt (
      if_both (On Unit (λ (k : ℕ). k ≤ (n + 2 ^ 32 - 1) % 2 ^ 32 + p)) (p == 0) tt
        (round_up ((n + 2 ^ 32 - 1) % 2 ^ 32) p))

module _ (nusb : Nusb) (debug : Bool) (fits : AnswersFit nusb) where
  pub asked-AtMost :
      {n : ℕ} (call : Call) {f : List ℕ → Effect (List ℕ)}
      → ((a : List ℕ) → AtMost n (f a))
      → AtMost n (ask nusb call >>= f)
  asked-AtMost call step =
      bind-Yields (record { yields = λ calls. any-On (or_error (nusb.answer calls call)) })
        λ a h. step a

  pub attempted-AtMost :
      (n : ℕ) (call : Call)
      → ((calls : List Call) → Within n (nusb.answer calls call))
      → AtMost n (attempt nusb call >>= λ a. lift (or_empty a))
  attempted-AtMost n call h = record {
    yields = λ calls. or_empty-On n (nusb.answer calls call) (h calls);
  }

  pub nothing_more : (n : ℕ) → AtMost n (pure [])
  nothing_more n = pure-Yields [] (omega arith)

  control-AtMost :
      (t : Target) (dir : Direction) (s : SetupPacket) (req : List ℕ)
      → AtMost s.length (control_transfer nusb debug t dir s req)
  unfolding control_transfer control_in_of
  control-AtMost t dir s req = lifted-Yields (control_type s) λ kind.
      lifted-Yields (recipient s) λ to.
        direction_both (AtMost s.length) dir
          (attempted-AtMost s.length (control_in t (control_in_of kind to s))
            λ calls. fits.control_fits calls t (control_in_of kind to s))
          (asked-AtMost _ λ sent. nothing_more s.length)

  interrupt-AtMost :
      (i : ℕ) (ep : UsbEndpoint) (n : ℕ) (req : List ℕ)
      → AtMost n (interrupt_transfer nusb debug i ep n req)
  unfolding interrupt_transfer
  interrupt-AtMost i ep n req =
      direction_both (AtMost n) (direction ep)
        (asked-AtMost _ λ opened.
          attempted-AtMost n (read_exact i ep.address n)
            λ calls. fits.reads_fit calls i ep.address n)
        (asked-AtMost _
          λ opened. asked-AtMost _ λ written. asked-AtMost _ λ flushed. nothing_more n)

  bulk-AtMost :
      (i : ℕ) (ep : UsbEndpoint) (n : ℕ) (req : List ℕ)
      → AtMost
          ((n + 2 ^ 32 - 1) % 2 ^ 32 + nusb.max_packet_size i ep.address)
          (bulk_transfer nusb debug i ep n req)
  unfolding bulk_transfer
  bulk-AtMost i ep n req =
      direction_both (AtMost _) (direction ep)
        (asked-AtMost _ λ opened.
          bind-Yields
            (lift-Yields (requested_len debug n (nusb.max_packet_size i ep.address))
              (requested-On debug n (nusb.max_packet_size i ep.address)))
            λ k h. record {
              yields = λ calls.
                  or_error-On _ (nusb.answer calls (transfer_blocking i ep.address k)) (
                    Within-weaken k _ (nusb.answer calls (transfer_blocking i ep.address k)) h
                      (fits.transfers_fit calls i ep.address k));
            })
        (asked-AtMost _
          λ opened. asked-AtMost _ λ written. asked-AtMost _ λ flushed. nothing_more _)

  pub interface-AtMost :
      (i : ℕ) (ep : UsbEndpoint) (n : ℕ) (s : SetupPacket) (req : List ℕ)
      → AtMost (interface_limit nusb i ep n s) (handle_urb_for_interface nusb debug i ep n s req)
  unfolding handle_urb_for_interface
  interface-AtMost i ep n s req =
      either-AtMost (ep.attributes == 0) (control-AtMost _ (direction ep) s req) (
        either-AtMost (ep.attributes == 3) (interrupt-AtMost i ep n req)
          (either-AtMost (ep.attributes == 2) (bulk-AtMost i ep n req) (nothing_more 0)))

  pub device-AtMost :
      (device : ℕ) (s : SetupPacket) (req : List ℕ)
      → AtMost s.length (handle_urb_for_device nusb debug device s req)
  unfolding handle_urb_for_device
  device-AtMost device s req = control-AtMost _ _ s req
