-- ===== src/Server/Bounds.antt =====
-- How much data the reply of src/lib.rs to a submit carries.
use nusbip.Common.{
  ℕ, ◌%◌, ◌^◌, ◌≤◌, List, [], ◌∷◌, Option, none, some, Bool, length, Outcome, ok, err, panic, hang,
  arith, ◌≡◌, ◌≢◌, refl, Bool-cases, inl, inr, ltb, false, IsU32, ◌*◌, ◌<◌,
}
use nusbip.Consts.{bulk, attributes_from, attributes_code}
use nusbip.Endpoint.{UsbEndpoint, UsbInterface, in_dir, direction}
use nusbip.Setup.{SetupPacket, parse}
use nusbip.Protocol.Header.{HeaderBasic, usbip_ret_submit}
use nusbip.Response.{Response, ret_submit, usbip_ret_submit_success, usbip_ret_submit_fail}
use nusbip.Device.{UsbDevice, find_ep}
use nusbip.Device.Urb.{handle_urb, other_urb}
use nusbip.Device.Bounds.{DescriptorsFit, urb_limit, urb-AtMost}
use nusbip.Host.Effects.{Nusb, Call, answered, open_endpoint, transfer_blocking}
use nusbip.Host.Yields.{On}
use nusbip.Host.Bounds.{AnswersFit}
use nusbip.Host.{requested_len, handle_urb_for_interface, bulk_transfer}
use nusbip.Host.Length.{requested_len_ceiling}
use native.Mathlib.Nat.{mul-mod_left}
use nusbip.Server.Submit.{sent_length, reply_header, real_ep, submit_reply, handle_usbip_cmd_submit}

-- The bytes behind the fields of a reply to a submit.
abbrev pub reply_data : Response → List ℕ
reply_data (ret_submit h r) = r.transfer_buffer
reply_data _ = []

-- The bound for a submit to a device.
abbrev pub submit_limit : Nusb → HeaderBasic → ℕ → List ℕ → UsbDevice → ℕ
submit_limit nusb header n setup d = elim (find_ep d (real_ep header % 2 ^ 8)) as (λ w. ℕ) [
  | none ↦ 0
  | some (ep, intf) ↦ urb_limit nusb ep intf n (parse setup)
]

abbrev ReplyWithin : ℕ → Outcome Response → Type 0
ReplyWithin l o = On Unit (λ (r : Response). length (reply_data r) ≤ l) o

reply-Within :
    (l : ℕ) (h : HeaderBasic) (ep : UsbEndpoint) (n : ℕ) (o : Outcome (List ℕ))
    → On Unit (λ (bytes : List ℕ). length bytes ≤ l) o
    → ReplyWithin l (submit_reply h ep n o)
unfolding submit_reply usbip_ret_submit_success usbip_ret_submit_fail
reply-Within l h ep n (ok bytes) q = q
reply-Within l h ep n (err e) q = omega arith
reply-Within l h ep n panic q = tt
reply-Within l h ep n hang q = tt

-- If the USB library gives no more bytes than it is asked for, and the descriptors that grow with the device
-- are below 2 ^ 16 bytes, the reply to a submit carries at most as many bytes as the setup packet asks
-- for on a control endpoint, as the submit asks for on an interrupt endpoint, and less than a packet
-- more on a bulk endpoint, where a submit that asks for none counts as one for 2 ^ 32; on any other
-- endpoint the reply carries none.
pub submit-Within :
    (nusb : Nusb) (debug : Bool) (header : HeaderBasic) (n : ℕ) (setup payload : List ℕ)
    (d : UsbDevice) (calls : List Call)
    → AnswersFit nusb
    → DescriptorsFit d
    → On Unit
        (λ (r : Response). length (reply_data r) ≤ submit_limit nusb header n setup d)
        (handle_usbip_cmd_submit nusb debug header n setup payload d calls).0
unfolding handle_usbip_cmd_submit
submit-Within nusb debug header n setup payload d calls answers fits =
    at_endpoint (find_ep d (real_ep header % 2 ^ 8))
  where
    at_endpoint :
        (o : Option (UsbEndpoint × Option UsbInterface))
        → ReplyWithin
            (elim o as (λ w. ℕ) [
              | none ↦ 0
              | some (ep, intf) ↦ urb_limit nusb ep intf n (parse setup)
            ])
            (elim o as (λ w. Outcome Response × List Call) [
              | none ↦ (ok (usbip_ret_submit_fail (reply_header usbip_ret_submit header) 0), calls)
              | some (ep, intf) ↦
                  (let (outcome, calls') =
                      handle_urb nusb debug d ep intf n (parse setup) payload calls in
                    (submit_reply (reply_header usbip_ret_submit header) ep n outcome, calls'))
            ]).0
    at_endpoint none = unfold usbip_ret_submit_fail in omega arith
    at_endpoint (some (ep, intf)) =
        reply-Within (urb_limit nusb ep intf n (parse setup)) (reply_header usbip_ret_submit header)
          ep n (handle_urb nusb debug d ep intf n (parse setup) payload calls).0
          ((urb-AtMost nusb debug d answers fits n (parse setup) payload ep intf).yields calls)

bulk_urb :
    (nusb : Nusb) (debug : Bool) (n k : ℕ) (s : SetupPacket) (payload opened bytes : List ℕ)
    (d : UsbDevice) (ep : UsbEndpoint) (intf : UsbInterface) (calls : List Call)
    → ep.attributes ≡ 2
    → direction ep ≡ in_dir
    → nusb.answer calls (open_endpoint intf.handler ep.address bulk in_dir) ≡ answered opened
    → requested_len debug n (nusb.max_packet_size intf.handler ep.address) ≡ ok k
    → nusb.answer
        (open_endpoint intf.handler ep.address bulk in_dir ∷ calls)
        (transfer_blocking intf.handler ep.address k)
      ≡ answered bytes
    → (handle_urb nusb debug d ep (some intf) n s payload calls).0 ≡ ok bytes
unfolding handle_urb attributes_from other_urb handle_urb_for_interface bulk_transfer direction
bulk_urb nusb debug n k s payload opened bytes d ep intf calls attr dir opens len gives =
    rw
      (
        handle_urb, attr, attributes_from, other_urb, handle_urb_for_interface, attributes_code,
        attr, bulk_transfer, dir, opens, len, gives,
      )
      refl

in_reply :
    (h : HeaderBasic) (ep : UsbEndpoint) (n : ℕ) (bytes : List ℕ)
    → direction ep ≡ in_dir
    → submit_reply h ep n (ok bytes)
      ≡ ok (usbip_ret_submit_success h 0 (length bytes % 2 ^ 32) bytes [])
unfolding submit_reply sent_length
in_reply h ep n bytes dir = rw (sent_length, dir) refl

bulk_reply :
    (nusb : Nusb) (debug : Bool) (header : HeaderBasic) (n k : ℕ)
    (setup payload opened bytes : List ℕ) (d : UsbDevice) (ep : UsbEndpoint) (intf : UsbInterface)
    (calls : List Call)
    → find_ep d (real_ep header % 2 ^ 8) ≡ some (ep, some intf)
    → ep.attributes ≡ 2
    → direction ep ≡ in_dir
    → nusb.answer calls (open_endpoint intf.handler ep.address bulk in_dir) ≡ answered opened
    → requested_len debug n (nusb.max_packet_size intf.handler ep.address) ≡ ok k
    → nusb.answer
        (open_endpoint intf.handler ep.address bulk in_dir ∷ calls)
        (transfer_blocking intf.handler ep.address k)
      ≡ answered bytes
    → (handle_usbip_cmd_submit nusb debug header n setup payload d calls).0
      ≡ ok (
          usbip_ret_submit_success
            (reply_header usbip_ret_submit header)
            0
            (length bytes % 2 ^ 32)
            bytes
            [])
unfolding handle_usbip_cmd_submit
bulk_reply nusb debug header n k setup payload opened bytes d ep intf calls found attr dir opens len
      gives =
    rw
      (
        handle_usbip_cmd_submit,
        found,
        bulk_urb nusb debug n k (parse setup) payload opened bytes d ep intf calls attr dir opens
            len gives,
      )
      (in_reply (reply_header usbip_ret_submit header) ep n bytes dir)

-- The library opens endpoints, and a transfer gives as many bytes as it is asked for.
pub record FillsTransfers (nusb : Nusb) : Type 0 where
  pub opens :
      (calls : List Call) (i a : ℕ)
      → (bytes : List ℕ) × (nusb.answer calls (open_endpoint i a bulk in_dir) ≡ answered bytes)
  pub fills :
      (calls : List Call) (i a k : ℕ)
      → (bytes : List ℕ) × (nusb.answer calls (transfer_blocking i a k) ≡ answered bytes)
        × (length bytes ≡ k)

not_multiple : (n k p : ℕ) → 1 ≤ p → n % p ≢ 0 → n ≤ k * p → n < k * p
not_multiple n k p hp ne h = elim (Bool-cases (ltb n (k * p))) [
  | inl e ↦ ground arith
  | inr e ↦ absurd (ne (rw (same e) (mul-mod_left k p)))
]
  where
    same : ltb n (k * p) ≡ false → n ≡ k * p
    same e = ground arith

-- A submit of at least one byte to a bulk IN endpoint, for a length that is not a multiple of the size of a
-- packet, of a device that gives as much as the library asks for: the reply carries more bytes than the
-- submit asks for.
pub bulk_overruns :
    (nusb : Nusb) (debug : Bool) (header : HeaderBasic) (n : ℕ) (setup payload : List ℕ)
    (d : UsbDevice) (ep : UsbEndpoint) (intf : UsbInterface) (calls : List Call)
    → FillsTransfers nusb
    → find_ep d (real_ep header % 2 ^ 8) ≡ some (ep, some intf)
    → ep.attributes ≡ 2
    → direction ep ≡ in_dir
    → 1 ≤ n
    → IsU32 n
    → 1 ≤ nusb.max_packet_size intf.handler ep.address
    → n % nusb.max_packet_size intf.handler ep.address ≢ 0
    → (r : Response) × ((handle_usbip_cmd_submit nusb debug header n setup payload d calls).0
        ≡ ok r)
      × (n < length (reply_data r))
unfolding usbip_ret_submit_success
bulk_overruns nusb debug header n setup payload d ep intf calls full found attr dir some_bytes fits
      packet ne =
    let p : ℕ = nusb.max_packet_size intf.handler ep.address in
    let (k, len, low, high) = requested_len_ceiling debug n p some_bytes fits packet in
    let (opened, opens) = full.opens calls intf.handler ep.address in
    let (bytes, gives, many) =
      full.fills (open_endpoint intf.handler ep.address bulk in_dir ∷ calls) intf.handler ep.address
        (k * p) in
    (
      _,
      bulk_reply nusb debug header n (k * p) setup payload opened bytes d ep intf calls found attr
          dir opens len gives,
      rw many (not_multiple n k p packet ne low),
    )
