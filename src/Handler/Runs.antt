-- ===== src/Handler/Runs.antt =====
-- `handler` of src/lib.rs on the bytes of proper commands, against a run of the commands themselves.
use nusbip.Common.{
  ℕ, zero, suc, ◌≤◌, ◌<◌, List, [], ◌∷◌, ◌++◌, Bool, All, length, Outcome, ok, err, panic, hang,
  bind, unexpected_eof, kind, append_assoc, ◌≡◌, refl, sym, ◌∙◌, ap, arith,
}
use nusbip.Common.Lists.{length-append}
use nusbip.Protocol.Command.{Command, command_to_bytes}
use nusbip.Protocol.Read.{read_from_socket}
use nusbip.Protocol.Input.{read_u16}
use nusbip.Protocol.WellFormed.{IsWellFormed}
use nusbip.Protocol.RoundTrip.{read-to_bytes}
use nusbip.Host.Effects.{Nusb}
use nusbip.Handler.{Connection, drop_device, dispatch, read_end, serve, handler}
use nusbip.Handler.Input.{with_input, at_input, dispatch-with_input}

-- One command after the other, until one cannot be answered; at the end the device is given back.
unfoldable pub run_commands :
    Nusb → Bool → List Command → Connection → Outcome (Unit {0}) × Connection
run_commands nusb debug [] c = (ok tt, drop_device c)
run_commands nusb debug (command ∷ commands) c =
    let (outcome, c') = dispatch nusb debug command c in
    elim outcome [
      | ok _ ↦ run_commands nusb debug commands c'
      | err e ↦ (err e, c')
      | panic ↦ (panic, c')
      | hang ↦ (hang, c')
    ]

unfoldable pub commands_to_bytes : Bool → List Command → Outcome (List ℕ)
commands_to_bytes debug [] = ok []
commands_to_bytes debug (command ∷ commands) =
    bind (command_to_bytes debug command)
      λ bytes. bind (commands_to_bytes debug commands) λ rest. ok (bytes ++ rest)

pub read_nothing : (debug : Bool) → read_from_socket debug [] ≡ err unexpected_eof
unfolding read_from_socket read_u16
read_nothing debug = refl

-- No command has no bytes.
some_bytes :
    (debug : Bool) (command : Command) (bytes : List ℕ)
    → read_from_socket debug (bytes ++ []) ≡ ok (command, [])
    → 1 ≤ length bytes
some_bytes debug command [] e = cc (e, read_nothing debug)
some_bytes debug command (b ∷ bytes) e = omega arith

module _ (nusb : Nusb) (debug : Bool) where
  abbrev pub after_dispatch : ℕ → Outcome (Unit {0}) × Connection → Outcome (Unit {0}) × Connection
  after_dispatch fuel (ok _, c) = serve nusb debug fuel c
  after_dispatch fuel (err e, c) = (err e, c)
  after_dispatch fuel (panic, c) = (panic, c)
  after_dispatch fuel (hang, c) = (hang, c)

  serve_on :
      (fuel : ℕ) (d : Outcome (Unit {0}) × Connection)
      → elim d.0 [
        | ok _ ↦ serve nusb debug fuel d.1
        | err e ↦ (err e, d.1)
        | panic ↦ (panic, d.1)
        | hang ↦ (hang, d.1)
      ]
        ≡ after_dispatch fuel d
  serve_on fuel (ok _, c) = refl
  serve_on fuel (err e, c) = refl
  serve_on fuel (panic, c) = refl
  serve_on fuel (hang, c) = refl

  -- One round of the loop.
  pub serve-command :
      (fuel : ℕ) (c : Connection) (command : Command) (rest : List ℕ)
      → read_from_socket debug c.input ≡ ok (command, rest)
      → serve nusb debug (suc fuel) c
        ≡ after_dispatch fuel (dispatch nusb debug command (with_input rest c))
  unfolding serve
  serve-command fuel c command rest e =
      rw (serve, e) (serve_on fuel (dispatch nusb debug command (with_input rest c)))

  pub serve-end :
      (fuel : ℕ) (c : Connection)
      → read_from_socket debug c.input ≡ err unexpected_eof
      → serve nusb debug (suc fuel) c ≡ (ok tt, drop_device c)
  unfolding serve read_end kind
  serve-end fuel c e = rw (serve, e) refl

  -- What the loop does on bytes that end in a cut-off command, up to the bytes it has not read.
  abbrev Serves : List ℕ → List Command → List ℕ → Type 0
  Serves tail commands bytes =
      (fuel : ℕ) (c : Connection)
      → length commands < fuel
      → at_input [] (serve nusb debug fuel (with_input (bytes ++ tail) c))
        ≡ run_commands nusb debug commands (with_input [] c)

  abbrev then_run : List Command → Outcome (Unit {0}) × Connection → Outcome (Unit {0}) × Connection
  then_run commands (ok _, c) = run_commands nusb debug commands c
  then_run commands (err e, c) = (err e, c)
  then_run commands (panic, c) = (panic, c)
  then_run commands (hang, c) = (hang, c)

  run_on :
      (commands : List Command) (d : Outcome (Unit {0}) × Connection)
      → elim d.0 [
        | ok _ ↦ run_commands nusb debug commands d.1
        | err e ↦ (err e, d.1)
        | panic ↦ (panic, d.1)
        | hang ↦ (hang, d.1)
      ]
        ≡ then_run commands d
  run_on commands (ok _, c) = refl
  run_on commands (err e, c) = refl
  run_on commands (panic, c) = refl
  run_on commands (hang, c) = refl

  served_end :
      (tail : List ℕ) → read_from_socket debug tail ≡ err unexpected_eof → Serves tail [] []
  unfolding run_commands drop_device
  served_end tail last zero c h = absurd (omega arith)
  served_end tail last (suc fuel) c h = rw (serve-end fuel (with_input tail c) last) refl

  served_after :
      (tail rest : List ℕ) (commands : List Command) (fuel : ℕ)
      → Serves tail commands rest
      → length commands < fuel
      → (d : Outcome (Unit {0}) × Connection)
      → at_input [] (after_dispatch fuel (at_input (rest ++ tail) d))
        ≡ then_run commands (at_input [] d)
  served_after tail rest commands fuel s h (ok _, c) = s fuel c h
  served_after tail rest commands fuel s h (err e, c) = refl
  served_after tail rest commands fuel s h (panic, c) = refl
  served_after tail rest commands fuel s h (hang, c) = refl

  served_command :
      (tail front rest : List ℕ) (command : Command) (commands : List Command)
      → read_from_socket debug (front ++ (rest ++ tail)) ≡ ok (command, rest ++ tail)
      → Serves tail commands rest
      → Serves tail (command ∷ commands) (front ++ rest)
  unfolding run_commands
  served_command tail front rest command commands e s zero c h = absurd (omega arith)
  served_command tail front rest command commands e s (suc fuel) c h = rw append_assoc (
      ap (at_input []) (
        serve-command fuel (with_input (front ++ (rest ++ tail)) c) command (rest ++ tail) e
        ∙ ap (after_dispatch fuel) (dispatch-with_input debug nusb command (rest ++ tail) c))
      ∙ served_after tail rest commands fuel s (omega arith) (dispatch nusb debug command c)
      ∙ sym (
          run_on commands (dispatch nusb debug command (with_input [] c))
          ∙ ap (then_run commands) (dispatch-with_input debug nusb command [] c)))

  Serves-commands :
      (tail : List ℕ) (commands : List Command)
      → read_from_socket debug tail ≡ err unexpected_eof
      → All (IsWellFormed debug) commands
      → (bytes : List ℕ) × (commands_to_bytes debug commands ≡ ok bytes)
        × (length commands ≤ length bytes)
        × Serves tail commands bytes
  unfolding commands_to_bytes
  Serves-commands tail [] last w = ([], refl, omega arith, served_end tail last)
  Serves-commands tail (command ∷ commands) last (w, ws) =
      let (rest, e, n, s) = Serves-commands tail commands last ws in
      let (front, f, r) = read-to_bytes debug command (rest ++ tail) w in
      let (front', f', r') = read-to_bytes debug command [] w in
      let same : front' ≡ front = cc in
      let some = some_bytes debug command front (rw same at r') in
      (
        front ++ rest,
        rw (f, e) refl,
        omega (arith, length-append front rest),
        served_command tail front rest command commands r s,
      )

-- Well-formed commands, followed by bytes on which the parser meets the end of the input, have a
-- wire form. On it `handler` does what the commands do one after the other, up to the bytes that it
-- leaves unread: the same outcome, server, imported device, output and calls.
pub handler-commands_to_bytes :
    (nusb : Nusb) (debug : Bool) (commands : List Command) (tail : List ℕ) (c : Connection)
    → read_from_socket debug tail ≡ err unexpected_eof
    → All (IsWellFormed debug) commands
    → (bytes : List ℕ) × (commands_to_bytes debug commands ≡ ok bytes)
      × (at_input [] (handler nusb debug (with_input (bytes ++ tail) c))
          ≡ run_commands nusb debug commands (with_input [] c))
unfolding handler
handler-commands_to_bytes nusb debug commands tail c last w =
    let (bytes, e, n, s) = Serves-commands nusb debug tail commands last w in
    (bytes, e, s (suc (length (bytes ++ tail))) c (omega (arith, length-append bytes tail)))
