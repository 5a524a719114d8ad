-- ===== src/Hid/Delivery.antt =====
-- What a host gets from the keyboard of src/hid.rs, against a queue of the packets that are due.
use nusbip.Common.{
  ℕ, zero, suc, ◌≤◌, List, [], ◌∷◌, ◌++◌, append_assoc, append-nil, true, false, if◌then◌else◌,
  if_cases, length, replicate, Outcome, ok, err, panic, hang, ◌≡◌, refl, sym, ap, ◌∙◌, arith,
}
use nusbip.Endpoint.{UsbEndpoint, Direction, in_dir, out_dir, direction, is_ep0}
use nusbip.Setup.{SetupPacket}
use nusbip.Hid.{
  KeyboardState, idle, key_down, KeyboardReport, Keyboard, keyboard_control, keyboard_poll,
  keyboard_urb,
}

abbrev pub press : KeyboardReport → List ℕ
press r = r.modifier ∷ 0 ∷ r.keys

abbrev pub key_release : List ℕ
key_release = replicate 6 0

abbrev pub strokes : List KeyboardReport → List (List ℕ)
strokes [] = []
strokes (r ∷ rs) = press r ∷ key_release ∷ strokes rs

abbrev pub due : KeyboardState → List KeyboardReport → List (List ℕ)
due idle pending = strokes pending
due key_down pending = key_release ∷ strokes pending

-- The packets that a keyboard has yet to send, in order.
abbrev pub packets : Keyboard → List (List ℕ)
packets k = due k.state k.pending_key_events

-- A program types a key, `pending_key_events.push_back`, or a request arrives.
pub data KeyboardAction : Type 0 where
  types : KeyboardReport → KeyboardAction
  asks : UsbEndpoint → SetupPacket → KeyboardAction

-- The packet that a request gets: the replies of endpoint 0 and empty replies are none.
unfoldable pub packet_of : UsbEndpoint → Outcome (List ℕ) → List (List ℕ)
packet_of ep (ok (b ∷ bs)) = if is_ep0 ep then [] else ((b ∷ bs) ∷ [])
packet_of ep _ = []

-- The packets sent over a run, and the keyboard after it. A request that panics changes nothing.
unfoldable pub run_keyboard : List KeyboardAction → Keyboard → List (List ℕ) × Keyboard
run_keyboard [] k = ([], k)
run_keyboard (types r ∷ actions) k =
    run_keyboard actions (record k { pending_key_events = k.pending_key_events ++ (r ∷ []) })
run_keyboard (asks ep setup ∷ actions) k =
    let (o, k') = keyboard_urb ep setup k in
    let (sent, k'') = run_keyboard actions k' in (packet_of ep o ++ sent, k'')

abbrev pub reports_typed : List KeyboardAction → List KeyboardReport
reports_typed [] = []
reports_typed (types r ∷ actions) = r ∷ reports_typed actions
reports_typed (asks ep setup ∷ actions) = reports_typed actions

strokes-append : (rs qs : List KeyboardReport) → strokes (rs ++ qs) ≡ strokes rs ++ strokes qs
strokes-append [] qs = refl
strokes-append (r ∷ rs) qs = ap (λ ps. press r ∷ key_release ∷ ps) (strokes-append rs qs)

due-append :
    (s : KeyboardState) (rs qs : List KeyboardReport) → due s (rs ++ qs) ≡ due s rs ++ strokes qs
due-append idle rs qs = strokes-append rs qs
due-append key_down rs qs = ap (◌∷◌ key_release) (strokes-append rs qs)

abbrev holding : KeyboardState → List KeyboardReport → Keyboard → Keyboard
holding s pending k = record k { state = s; pending_key_events = pending }

-- A poll sends the first packet that is due.
poll_sends :
    (ep : UsbEndpoint) (s : KeyboardState) (pending : List KeyboardReport) (k : Keyboard)
    → is_ep0 ep ≡ false
    → let (resp, k') = keyboard_poll s pending (holding s pending k) in
      packet_of ep (ok resp) ++ packets k' ≡ due s pending
unfolding packet_of keyboard_poll
poll_sends ep idle [] k e = refl
poll_sends ep idle (r ∷ rest) k e = rw e
poll_sends ep key_down pending k e = rw e

silent : (ep : UsbEndpoint) (o : Outcome (List ℕ)) → is_ep0 ep ≡ true → packet_of ep o ≡ []
unfolding packet_of
silent ep (ok []) e = refl
silent ep (ok (b ∷ bs)) e = rw e
silent ep (err x) e = refl
silent ep panic e = refl
silent ep hang e = refl

-- A request sends the first packet that is due, or none.
ask_sends :
    (ep : UsbEndpoint) (setup : SetupPacket) (k : Keyboard)
    → let (o, k') = keyboard_urb ep setup k in packet_of ep o ++ packets k' ≡ packets k
unfolding keyboard_urb
ask_sends ep setup k =
    if_cases (λ (r : Outcome (List ℕ) × Keyboard). packet_of ep r.0 ++ packets r.1 ≡ packets k)
      (is_ep0 ep) (λ e. rw (silent ep (keyboard_control setup k) e) refl)
      λ e. by_direction (direction ep) e
  where
    by_direction :
        (d : Direction)
        → is_ep0 ep ≡ false
        → let r : Outcome (List ℕ) × Keyboard = elim d [
          | in_dir ↦
              (let (resp, k') = keyboard_poll k.state k.pending_key_events k in (ok resp, k'))
          | out_dir ↦ (ok [], k)
        ] in
          packet_of ep r.0 ++ packets r.1 ≡ packets k
    by_direction in_dir e = poll_sends ep k.state k.pending_key_events k e
    by_direction out_dir e = unfold packet_of in refl

-- Whatever is typed and asked, in any order: the packets sent, and then those still due, are the
-- packets due before followed by a press and a release for each key typed. None is lost, repeated
-- or out of order.
pub run_keyboard_lem :
    (actions : List KeyboardAction) (k : Keyboard)
    → let (sent, k') = run_keyboard actions k in
      sent ++ packets k' ≡ packets k ++ strokes (reports_typed actions)
unfolding run_keyboard
run_keyboard_lem [] k = sym (append-nil _)
run_keyboard_lem (types r ∷ actions) k =
    run_keyboard_lem actions (record k { pending_key_events = k.pending_key_events ++ (r ∷ []) })
    ∙ ap (λ ps. ps ++ strokes (reports_typed actions))
        (due-append k.state k.pending_key_events (r ∷ []))
    ∙ append_assoc (packets k) (strokes (r ∷ [])) (strokes (reports_typed actions))
run_keyboard_lem (asks ep setup ∷ actions) k =
    let (o, k') = keyboard_urb ep setup k in
    append_assoc (packet_of ep o) (run_keyboard actions k').0 (packets (run_keyboard actions k').1)
    ∙ ap (λ ps. packet_of ep o ++ ps) (run_keyboard_lem actions k')
    ∙ sym (append_assoc (packet_of ep o) (packets k') (strokes (reports_typed actions)))
    ∙ ap (λ ps. ps ++ strokes (reports_typed actions)) (ask_sends ep setup k)

module _ (ep : UsbEndpoint) (setup : SetupPacket) (interrupt : is_ep0 ep ≡ false)
    (inward : direction ep ≡ in_dir) where
  poll-urb :
      (k : Keyboard)
      → keyboard_urb ep setup k ≡ (
        ok (keyboard_poll k.state k.pending_key_events k).0,
        (keyboard_poll k.state k.pending_key_events k).1,
      )
  unfolding keyboard_urb
  poll-urb k = rw (interrupt, inward) refl

  polls_send :
      (n : ℕ) (s : KeyboardState) (pending : List KeyboardReport) (k : Keyboard)
      → length (due s pending) ≤ n
      → run_keyboard (replicate n (asks ep setup)) (holding s pending k)
        ≡ (due s pending, holding idle [] k)
  unfolding run_keyboard packet_of keyboard_poll
  polls_send zero idle [] k h = refl
  polls_send zero idle (r ∷ rest) k h = absurd (omega arith)
  polls_send zero key_down pending k h = absurd (omega arith)
  polls_send (suc n) idle [] k h =
      rw (poll-urb (holding idle [] k), polls_send n idle [] k (omega arith)) refl
  polls_send (suc n) idle (r ∷ rest) k h =
      rw
        (
          poll-urb (holding idle (r ∷ rest) k),
          interrupt,
          polls_send n key_down rest k (omega arith),
        )
        refl
  polls_send (suc n) key_down pending k h =
      rw
        (
          poll-urb (holding key_down pending k),
          interrupt,
          polls_send n idle pending k (omega arith),
        )
        refl

-- As many polls of an interrupt IN endpoint as there are packets due, or more, send them all: every
-- key that was typed goes down and up again, and the keyboard is idle.
pub polls_lem :
    (ep : UsbEndpoint) (setup : SetupPacket) (n : ℕ) (k : Keyboard)
    → is_ep0 ep ≡ false
    → direction ep ≡ in_dir
    → length (packets k) ≤ n
    → run_keyboard (replicate n (asks ep setup)) k
      ≡ (packets k, record k { state = idle; pending_key_events = [] })
polls_lem ep setup n k interrupt inward h =
    polls_send ep setup interrupt inward n k.state k.pending_key_events k h
