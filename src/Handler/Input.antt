-- ===== src/Handler/Input.antt =====
-- `handler` of src/lib.rs on one command, against the bytes that it has not read.
use nusbip.Common.{
  ℕ, List, some, Bool, ◌==◌, Outcome, ok, err, panic, hang, Bool-cases, Option-cases, inl, inr, ◌≡◌,
  refl,
}
use nusbip.Protocol.Command.{Command, req_devlist, req_import, cmd_submit, cmd_unlink}
use nusbip.Response.{Response, response_to_bytes}
use nusbip.Server.Import.{handle_op_req_devlist, handle_op_req_import}
use nusbip.Server.Submit.{handle_usbip_cmd_submit, handle_usbip_cmd_unlink}
use nusbip.Host.Effects.{Nusb}
use nusbip.Handler.{
  Connection, drop_device, write_all, write_to_socket, reply, reply_import, dispatch,
}

abbrev pub with_input : List ℕ → Connection → Connection
with_input x c = record c { input = x }

abbrev pub at_input : List ℕ → Outcome (Unit {0}) × Connection → Outcome (Unit {0}) × Connection
at_input x (o, c) = (o, with_input x c)

pub drop_device-with_input :
    (x : List ℕ) (c : Connection) → drop_device (with_input x c) ≡ with_input x (drop_device c)
unfolding drop_device
drop_device-with_input x c = refl

write_all-with_input :
    (bytes x : List ℕ) (c : Connection)
    → write_all bytes (with_input x c) ≡ at_input x (write_all bytes c)
unfolding write_all
write_all-with_input bytes x c = elim (Bool-cases (c.accepts == 0)) [
  | inl e ↦ rw e refl
  | inr e ↦ rw e refl
]

write_outcome :
    (o : Outcome (List ℕ)) (x : List ℕ) (c : Connection)
    → elim o [
      | ok bytes ↦ write_all bytes (with_input x c)
      | err e ↦ (err e, with_input x c)
      | panic ↦ (panic, with_input x c)
      | hang ↦ (hang, with_input x c)
    ]
      ≡ at_input x (elim o [
        | ok bytes ↦ write_all bytes c
        | err e ↦ (err e, c)
        | panic ↦ (panic, c)
        | hang ↦ (hang, c)
      ])
write_outcome (ok bytes) x c = write_all-with_input bytes x c
write_outcome (err e) x c = refl
write_outcome panic x c = refl
write_outcome hang x c = refl

module _ (debug : Bool) where
  write-with_input :
      (r : Response) (x : List ℕ) (c : Connection)
      → write_to_socket debug r (with_input x c) ≡ at_input x (write_to_socket debug r c)
  unfolding write_to_socket
  write-with_input r x c = write_outcome (response_to_bytes debug r) x c

  reply-with_input :
      (o : Outcome Response) (x : List ℕ) (c : Connection)
      → reply debug o (with_input x c) ≡ at_input x (reply debug o c)
  unfolding reply
  reply-with_input (ok r) x c = write-with_input r x c
  reply-with_input (err e) x c = refl
  reply-with_input panic x c = refl
  reply-with_input hang x c = refl

  reply_import-with_input :
      (o : Outcome Response) (x : List ℕ) (c : Connection)
      → reply_import debug o (with_input x c) ≡ at_input x (reply_import debug o c)
  unfolding reply_import drop_device
  reply_import-with_input (ok r) x c = write-with_input r x c
  reply_import-with_input (err e) x c = refl
  reply_import-with_input panic x c = refl
  reply_import-with_input hang x c = refl

  pub dispatch-with_input :
      (nusb : Nusb) (command : Command) (x : List ℕ) (c : Connection)
      → dispatch nusb debug command (with_input x c) ≡ at_input x (dispatch nusb debug command c)
  unfolding dispatch
  dispatch-with_input nusb (req_devlist status) x c =
      reply-with_input (handle_op_req_devlist c.server) x c
  dispatch-with_input nusb (req_import status busid) x c =
      let (r, imported, server) = handle_op_req_import busid c.imported c.server in
      reply_import-with_input r x (record c { imported = imported; server = server })
  dispatch-with_input nusb (cmd_submit header s) x c = elim (Option-cases c.imported) [
    | inl e ↦ rw e refl
    | inr (device, e) ↦ rw e (
        let (r, calls) =
          handle_usbip_cmd_submit nusb debug header s.transfer_buffer_length s.setup s.payload
            device c.calls in
        reply-with_input r x (record c { imported = some device; calls = calls }))
  ]
  dispatch-with_input nusb (cmd_unlink header unlink_seqnum) x c =
      reply-with_input (handle_usbip_cmd_unlink header unlink_seqnum) x c
