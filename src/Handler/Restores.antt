-- ===== src/Handler/Restores.antt =====
-- The available devices of src/lib.rs over the life of a connection.
use nusbip.Common.{
  ℕ, zero, suc, List, Option, none, some, Bool, ◌==◌, if_both, Outcome, ok, err, panic, hang, kind,
  Ends, ◌≡◌, ◌≢◌, refl, sym, subst,
}
use nusbip.Protocol.Command.{Command, req_devlist, req_import, cmd_submit, cmd_unlink}
use nusbip.Protocol.Read.{read_from_socket}
use nusbip.Response.{Response, response_to_bytes}
use nusbip.Device.{UsbDevice}
use nusbip.Server.Devices.{has, Distinct}
use nusbip.Server.Import.{handle_op_req_devlist}
use nusbip.Server.Submit.{handle_usbip_cmd_submit, handle_usbip_cmd_unlink}
use nusbip.Host.Effects.{Nusb}
use nusbip.Handler.{
  Connection, drop_device, write_all, write_to_socket, reply, reply_import, dispatch, read_end,
  serve, handler, connection_task,
}
use nusbip.Handler.Ends.{handler-Ends}
use nusbip.Server.Keeps.{Keeps, give_back-Keeps, import-Keeps}

abbrev Holds : List UsbDevice → Connection → Type 0
Holds A c = Keeps A c.imported c.server

module _ (debug : Bool) (A : List UsbDevice) where
  write_all-Holds : (bytes : List ℕ) (c : Connection) → Holds A c → Holds A (write_all bytes c).1
  unfolding write_all
  write_all-Holds bytes c k =
      if_both (λ (r : Outcome (Unit {0}) × Connection). Holds A r.1) (c.accepts == 0) k k

  write-Holds : (r : Response) (c : Connection) → Holds A c → Holds A (write_to_socket debug r c).1
  unfolding write_to_socket
  write-Holds r c k = by_bytes (response_to_bytes debug r)
    where
      by_bytes :
          (o : Outcome (List ℕ))
          → let w : Outcome (Unit {0}) × Connection = elim o [
            | ok bytes ↦ write_all bytes c
            | err e ↦ (err e, c)
            | panic ↦ (panic, c)
            | hang ↦ (hang, c)
          ] in
            Holds A w.1
      by_bytes (ok bytes) = write_all-Holds bytes c k
      by_bytes (err e) = k
      by_bytes panic = k
      by_bytes hang = k

  reply-Holds : (o : Outcome Response) (c : Connection) → Holds A c → Holds A (reply debug o c).1
  unfolding reply
  reply-Holds (ok r) c k = write-Holds r c k
  reply-Holds (err e) c k = k
  reply-Holds panic c k = k
  reply-Holds hang c k = k

  drop-Holds : (c : Connection) → Holds A c → Keeps A none (drop_device c).server
  unfolding drop_device
  drop-Holds c k = give_back-Keeps A c.imported c.server k

  reply_import-Holds :
      (o : Outcome Response) (c : Connection) → Holds A c → Holds A (reply_import debug o c).1
  unfolding reply_import drop_device
  reply_import-Holds (ok r) c k = write-Holds r c k
  reply_import-Holds (err e) c k = give_back-Keeps A c.imported c.server k
  reply_import-Holds panic c k = k
  reply_import-Holds hang c k = k

  dispatch-Holds :
      (nusb : Nusb) (command : Command) (c : Connection)
      → Holds A c
      → Holds A (dispatch nusb debug command c).1
  unfolding dispatch
  dispatch-Holds nusb (req_devlist status) c k = reply-Holds (handle_op_req_devlist c.server) c k
  dispatch-Holds nusb (req_import status busid) c k =
      reply_import-Holds _ _ (import-Keeps A busid c.imported c.server k)
  dispatch-Holds nusb (cmd_submit header s) c k = by_device c.imported
    where
      by_device :
          (o : Option UsbDevice)
          → let w : Outcome (Unit {0}) × Connection = elim o [
            | none ↦ (ok tt, c)
            | some device ↦
                (let (r, calls) =
                    handle_usbip_cmd_submit nusb debug header s.transfer_buffer_length s.setup
                      s.payload device c.calls in
                  reply debug r (record c { calls = calls }))
          ] in
            Holds A w.1
      by_device none = k
      by_device (some device) = reply-Holds _ _ k
  dispatch-Holds nusb (cmd_unlink header unlink_seqnum) c k =
      reply-Holds (handle_usbip_cmd_unlink header unlink_seqnum) c k

  after-Holds :
      (nusb : Nusb) (fuel : ℕ) (d : Outcome (Unit {0}) × Connection)
      → Holds A d.1
      → Holds A (serve nusb debug fuel d.1).1
      → let r : Outcome (Unit {0}) × Connection = elim d.0 [
        | ok _ ↦ serve nusb debug fuel d.1
        | err e ↦ (err e, d.1)
        | panic ↦ (panic, d.1)
        | hang ↦ (hang, d.1)
      ] in
        Holds A r.1
  after-Holds nusb fuel (ok _, c) k later = later
  after-Holds nusb fuel (err e, c) k later = k
  after-Holds nusb fuel (panic, c) k later = k
  after-Holds nusb fuel (hang, c) k later = k

  round-Holds :
      (nusb : Nusb) (fuel : ℕ) (c : Connection) (o : Outcome (Command × List ℕ))
      → Holds A c
      → ((c' : Connection) → Holds A c' → Holds A (serve nusb debug fuel c').1)
      → let r : Outcome (Unit {0}) × Connection = elim o [
        | err e ↦ (read_end (kind e) e, drop_device c)
        | panic ↦ (panic, c)
        | hang ↦ (hang, c)
        | ok (command, rest) ↦
            (let (outcome, c') = dispatch nusb debug command (record c { input = rest }) in
              elim outcome [
                | ok _ ↦ serve nusb debug fuel c'
                | err e ↦ (err e, c')
                | panic ↦ (panic, c')
                | hang ↦ (hang, c')
              ])
      ] in
        Holds A r.1
  unfolding drop_device
  round-Holds nusb fuel c (ok (command, rest)) k later =
      let c' = record c { input = rest } in
      let k' = dispatch-Holds nusb command c' k in
      after-Holds nusb fuel (dispatch nusb debug command c') k' (later _ k')
  round-Holds nusb fuel c (err e) k later = give_back-Keeps A c.imported c.server k
  round-Holds nusb fuel c panic k later = k
  round-Holds nusb fuel c hang k later = k

  serve-Holds :
      (nusb : Nusb) (fuel : ℕ) (c : Connection) → Holds A c → Holds A (serve nusb debug fuel c).1
  unfolding serve
  serve-Holds nusb zero c k = k
  serve-Holds nusb (suc fuel) c k =
      round-Holds nusb fuel c (read_from_socket debug c.input) k (serve-Holds nusb fuel)

  task_end :
      (o : Outcome (Unit {0})) (c : Connection)
      → Holds A c
      → Ends o
      → o ≢ panic
      → let r : Connection = elim o [
        | ok _ ↦ drop_device c
        | err e ↦ drop_device c
        | panic ↦ c
        | hang ↦ c
      ] in
        (r.imported ≡ none) × ((x : List ℕ) → has x r.server.available ≡ has x A)
  unfolding drop_device
  task_end (ok _) c k h ne = (refl, (drop-Holds c k).1)
  task_end (err e) c k h ne = (refl, (drop-Holds c k).1)
  task_end panic c k h ne = absurd (ne refl)
  task_end hang c k h ne = absurd h

-- A connection that starts with no imported device, on a server with no bus id twice among the
-- available devices, and in which `handler` does not panic, ends with no imported device and with
-- the same bus ids available as before, whatever it sent.
pub connection_task_lem :
    (nusb : Nusb) (debug : Bool) (c : Connection) (x : List ℕ)
    → c.imported ≡ none
    → Distinct c.server.available
    → (handler nusb debug c).0 ≢ panic
    → ((connection_task nusb debug c).imported ≡ none)
      × (has x (connection_task nusb debug c).server.available ≡ has x c.server.available)
unfolding connection_task handler
connection_task_lem nusb debug c x empty dis ne =
    let A = c.server.available in
    let held : Holds A c = subst (λ o. Keeps A o c.server) (sym empty) (dis, λ y. refl) in
    let (gone, same) =
      task_end debug A (handler nusb debug c).0 (handler nusb debug c).1
        (serve-Holds debug A nusb _ c held) (handler-Ends nusb debug c) ne in
    (gone, same x)
