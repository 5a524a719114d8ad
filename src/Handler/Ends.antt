-- ===== src/Handler/Ends.antt =====
-- How `handler` of src/lib.rs ends, on any input.
use nusbip.Common.{
  ℕ, zero, suc, ◌≤◌, ◌<◌, List, [], ◌∷◌, Option, none, some, Bool, ◌==◌, length, Outcome, ok, err,
  panic, hang, Error, ErrorKind, kind, kind_unexpected_eof, Ends, bind-Ends, if_both, debug_assert,
  debug_assert-Ends, leb, Option-cases, ◌⊎◌, inl, inr, ◌≡◌, refl, ap, arith,
}
use nusbip.Protocol.Header.{HeaderBasic}
use nusbip.Protocol.Command.{Command, req_devlist, req_import, cmd_submit, cmd_unlink}
use nusbip.Protocol.Read.{read_from_socket}
use nusbip.Protocol.Progress.{Leaves, read-Leaves}
use nusbip.Response.{
  Response, rep_devlist, rep_import, ret_submit, ret_unlink, response_to_bytes, devices_to_bytes,
  imported_to_bytes,
}
use nusbip.Device.{UsbDevice}
use nusbip.Device.Bytes.{device_to_bytes, to_bytes_with_interfaces}
use nusbip.Server.{Server, occupy}
use nusbip.Server.Utf8.{is_utf8}
use nusbip.Server.Import.{
  import_reply, trimmed, give_back, handle_op_req_devlist, handle_op_req_import,
}
use nusbip.Server.Submit.{handle_usbip_cmd_unlink}
use nusbip.Server.Replies.{Answers, submit-Answers}
use nusbip.Host.Effects.{Nusb}
use nusbip.Handler.{
  Connection, drop_device, write_all, write_to_socket, reply, reply_import, dispatch, read_end,
  serve, handler,
}
use nusbip.Handler.Input.{dispatch-with_input}
use nusbip.Handler.Runs.{read_nothing, serve-end}

device-Ends : (debug : Bool) (d : UsbDevice) → Ends (device_to_bytes debug d)
unfolding device_to_bytes
device-Ends debug d =
    bind-Ends (debug_assert debug (leb (length d.path) 256)) _ (debug_assert-Ends debug _) λ p.
      bind-Ends (debug_assert debug (leb (length d.bus_id) 32)) _ (debug_assert-Ends debug _)
        λ b. tt

devices-Ends : (debug : Bool) (ds : List UsbDevice) → Ends (devices_to_bytes debug ds)
unfolding devices_to_bytes to_bytes_with_interfaces
devices-Ends debug [] = tt
devices-Ends debug (d ∷ ds) =
    bind-Ends _ _ (bind-Ends (device_to_bytes debug d) _ (device-Ends debug d) λ bytes. tt)
      λ bytes. bind-Ends (devices_to_bytes debug ds) _ (devices-Ends debug ds) λ more. tt

response-Ends : (debug : Bool) (r : Response) → Ends (response_to_bytes debug r)
unfolding response_to_bytes imported_to_bytes
response-Ends debug (rep_devlist status device_count devices) =
    bind-Ends (devices_to_bytes debug devices) _ (devices-Ends debug devices) λ bytes. tt
response-Ends debug (rep_import status none) = tt
response-Ends debug (rep_import status (some d)) =
    bind-Ends (device_to_bytes debug d) _ (device-Ends debug d) λ bytes. tt
response-Ends debug (ret_submit header r) =
    bind-Ends (debug_assert debug (header.command == 3)) _ (debug_assert-Ends debug _) λ v. tt
response-Ends debug (ret_unlink header status) =
    bind-Ends (debug_assert debug (header.command == 4)) _ (debug_assert-Ends debug _) λ v. tt

write_all-Ends : (bytes : List ℕ) (c : Connection) → Ends (write_all bytes c).0
unfolding write_all
write_all-Ends bytes c =
    if_both (λ (r : Outcome (Unit {0}) × Connection). Ends r.0) (c.accepts == 0) tt tt

write-Ends : (debug : Bool) (r : Response) (c : Connection) → Ends (write_to_socket debug r c).0
unfolding write_to_socket
write-Ends debug r c = by_bytes (response_to_bytes debug r) (response-Ends debug r)
  where
    by_bytes :
        (o : Outcome (List ℕ))
        → Ends o
        → let w : Outcome (Unit {0}) × Connection = elim o [
          | ok bytes ↦ write_all bytes c
          | err e ↦ (err e, c)
          | panic ↦ (panic, c)
          | hang ↦ (hang, c)
        ] in
          Ends w.0
    by_bytes (ok bytes) h = write_all-Ends bytes c
    by_bytes (err e) h = tt
    by_bytes panic h = tt
    by_bytes hang h = h

reply-Ends :
    (debug : Bool) (o : Outcome Response) (c : Connection) → Ends o → Ends (reply debug o c).0
unfolding reply
reply-Ends debug (ok r) c h = write-Ends debug r c
reply-Ends debug (err e) c h = tt
reply-Ends debug panic c h = tt
reply-Ends debug hang c h = h

reply_import-Ends :
    (debug : Bool) (o : Outcome Response) (c : Connection)
    → Ends o
    → Ends (reply_import debug o c).0
unfolding reply_import
reply_import-Ends debug (ok r) c h = write-Ends debug r c
reply_import-Ends debug (err e) c h = tt
reply_import-Ends debug panic c h = tt
reply_import-Ends debug hang c h = h

import_reply-Ends : (o : Outcome UsbDevice) → Ends (import_reply o).0
unfolding import_reply
import_reply-Ends (ok d) = tt
import_reply-Ends _ = tt

import-Ends :
    (busid : List ℕ) (o : Option UsbDevice) (s : Server) → Ends (handle_op_req_import busid o s).0
unfolding handle_op_req_import
import-Ends busid o s =
    if_both (λ (r : Outcome Response × Option UsbDevice × Server). Ends r.0)
      (is_utf8 (trimmed busid)) (import_reply-Ends (occupy (trimmed busid) (give_back o s)).0) tt

Answers-Ends : (debug : Bool) (h : HeaderBasic) (o : Outcome Response) → Answers debug h o → Ends o
Answers-Ends debug h (ok r) a = tt
Answers-Ends debug h (err e) a = tt
Answers-Ends debug h panic a = tt
Answers-Ends debug h hang a = a

List-cases : (xs : List ℕ) → (xs ≡ []) ⊎ ((b : ℕ) × (bs : List ℕ) × (xs ≡ b ∷ bs))
List-cases [] = inl refl
List-cases (b ∷ bs) = inr (b, bs, refl)

dispatch-Ends :
    (nusb : Nusb) (debug : Bool) (command : Command) (c : Connection)
    → Ends (dispatch nusb debug command c).0
unfolding dispatch handle_op_req_devlist handle_usbip_cmd_unlink
dispatch-Ends nusb debug (req_devlist status) c =
    reply-Ends debug (handle_op_req_devlist c.server) c tt
dispatch-Ends nusb debug (req_import status busid) c =
    reply_import-Ends debug _ _ (import-Ends busid c.imported c.server)
dispatch-Ends nusb debug (cmd_submit header s) c = elim (Option-cases c.imported) [
  | inl e ↦ rw e tt
  | inr (device, e) ↦ rw e (
      reply-Ends debug _ _ (
        Answers-Ends debug header _ (
          submit-Answers nusb debug header s.transfer_buffer_length s.setup s.payload device
            c.calls)))
]
dispatch-Ends nusb debug (cmd_unlink header unlink_seqnum) c =
    reply-Ends debug (handle_usbip_cmd_unlink header unlink_seqnum) c tt

read_end-Ends : (k : ErrorKind) (e : Error) → Ends (read_end k e)
unfolding read_end
read_end-Ends kind_unexpected_eof e = tt
read_end-Ends _ e = tt

dispatch-input :
    (nusb : Nusb) (debug : Bool) (command : Command) (c : Connection)
    → (dispatch nusb debug command c).1.input ≡ c.input
dispatch-input nusb debug command c =
    ap (λ (r : Outcome (Unit {0}) × Connection). r.1.input)
      (dispatch-with_input debug nusb command c.input c)

module _ (nusb : Nusb) (debug : Bool) where
  after_dispatch :
      (fuel : ℕ) (d : Outcome (Unit {0}) × Connection)
      → Ends d.0
      → Ends (serve nusb debug fuel d.1).0
      → let r : Outcome (Unit {0}) × Connection = elim d.0 [
        | ok _ ↦ serve nusb debug fuel d.1
        | err e ↦ (err e, d.1)
        | panic ↦ (panic, d.1)
        | hang ↦ (hang, d.1)
      ] in
        Ends r.0
  after_dispatch fuel (ok _, c) h later = later
  after_dispatch fuel (err e, c) h later = tt
  after_dispatch fuel (panic, c) h later = tt
  after_dispatch fuel (hang, c) h later = h

  round_Ends :
      (fuel n : ℕ) (c : Connection) (o : Outcome (Command × List ℕ))
      → n < fuel
      → Leaves n o
      → ((c' : Connection) → length c'.input < fuel → Ends (serve nusb debug fuel c').0)
      → let r : Outcome (Unit {0}) × Connection = elim o [
        | err e ↦ (read_end (kind e) e, drop_device c)
        | panic ↦ (panic, c)
        | hang ↦ (hang, c)
        | ok (command, rest) ↦
            (let (outcome, c') = dispatch nusb debug command (record c { input = rest }) in
              elim outcome [
                | ok _ ↦ serve nusb debug fuel c'
                | err e ↦ (err e, c')
                | panic ↦ (panic, c')
                | hang ↦ (hang, c')
              ])
      ] in
        Ends r.0
  round_Ends fuel n c (ok (command, rest)) h l later =
      let c' = record c { input = rest } in
      after_dispatch fuel (dispatch nusb debug command c') (dispatch-Ends nusb debug command c') (
        later (dispatch nusb debug command c').1
          (rw (dispatch-input nusb debug command c') (omega arith)))
  round_Ends fuel n c (err e) h l later = read_end-Ends (kind e) e
  round_Ends fuel n c panic h l later = tt
  round_Ends fuel n c hang h l later = l

  serve-Ends :
      (fuel : ℕ) (c : Connection) → length c.input < fuel → Ends (serve nusb debug fuel c).0
  unfolding serve
  serve-Ends zero c h = absurd (omega arith)
  serve-Ends (suc fuel) c h = elim (List-cases c.input) [
    | inl e ↦ rw (serve-end nusb debug fuel c (rw e (read_nothing debug))) tt
    | inr (b, bs, e) ↦
        let less : suc (suc (length bs)) ≤ suc fuel = (rw e at h) in
        round_Ends fuel (length bs) c (read_from_socket debug c.input) (omega arith)
          (read-Leaves debug c.input (length bs) (rw e (omega arith))) (serve-Ends fuel)
  ]

-- On any input, with any server and any behaviour of the USB library, `handler` comes to an end: it
-- returns, with or without an error, or panics.
pub handler-Ends : (nusb : Nusb) (debug : Bool) (c : Connection) → Ends (handler nusb debug c).0
unfolding handler
handler-Ends nusb debug c = serve-Ends nusb debug (suc (length c.input)) c (omega arith)
