-- ===== src/Cdc/Stream.antt =====
-- The bytes that a host gets from the serial port of src/cdc.rs, against those written to it.
use nusbip.Common.{
  ℕ, List, [], ◌∷◌, ◌++◌, append_assoc, append-nil, ◌==◌, if_cases, Outcome, bind, ok, ◌≡◌, refl,
  sym, ap, ◌∙◌,
}
use nusbip.Endpoint.{UsbEndpoint, Direction, in_dir, out_dir, direction}
use nusbip.Cdc.{CdcAcm, cdc_urb}

-- A program writes bytes, `tx_buffer.extend`, or a request arrives.
pub data SerialAction : Type 0 where
  writes : List ℕ → SerialAction
  asks : UsbEndpoint → List ℕ → SerialAction

-- All bytes of all replies, if none fails, and the port after them.
unfoldable pub run_serial : List SerialAction → CdcAcm → Outcome (List ℕ) × CdcAcm
run_serial [] c = (ok [], c)
run_serial (writes bytes ∷ actions) c =
    run_serial actions (record c { tx_buffer = c.tx_buffer ++ bytes })
run_serial (asks ep req ∷ actions) c =
    let (o, c') = cdc_urb ep req c in
    let (later, c'') = run_serial actions c' in
    (bind o λ bytes. bind later λ more. ok (bytes ++ more), c'')

abbrev pub written : List SerialAction → List ℕ
written [] = []
written (writes bytes ∷ actions) = bytes ++ written actions
written (asks ep req ∷ actions) = written actions

-- A request has a reply, which takes its bytes off the front of the buffer.
ask_takes :
    (ep : UsbEndpoint) (req : List ℕ) (c : CdcAcm)
    → let (o, c') = cdc_urb ep req c in
      (bytes : List ℕ) × (o ≡ ok bytes) × (bytes ++ c'.tx_buffer ≡ c.tx_buffer)
unfolding cdc_urb
ask_takes ep req c =
    if_cases
      (λ (r : Outcome (List ℕ) × CdcAcm).
        (bytes : List ℕ) × (r.0 ≡ ok bytes) × (bytes ++ r.1.tx_buffer ≡ c.tx_buffer))
      (ep.attributes == 3) (λ e. ([], refl, refl)) λ e. by_direction (direction ep)
  where
    by_direction :
        (d : Direction)
        → let r : Outcome (List ℕ) × CdcAcm = elim d [
          | out_dir ↦ (ok [], c)
          | in_dir ↦ (ok c.tx_buffer, record c { tx_buffer = [] })
        ] in
          (bytes : List ℕ) × (r.0 ≡ ok bytes) × (bytes ++ r.1.tx_buffer ≡ c.tx_buffer)
    by_direction out_dir = ([], refl, refl)
    by_direction in_dir = (c.tx_buffer, refl, append-nil _)

-- Whatever is written and asked, in any order: no request fails, and the bytes of all replies, and then
-- those in the buffer, are the bytes in the buffer before followed by those written. None is lost,
-- repeated or out of order.
pub run_serial_lem :
    (actions : List SerialAction) (c : CdcAcm)
    → (bytes : List ℕ) × ((run_serial actions c).0 ≡ ok bytes)
      × (bytes ++ (run_serial actions c).1.tx_buffer ≡ c.tx_buffer ++ written actions)
unfolding run_serial
run_serial_lem [] c = ([], refl, sym (append-nil _))
run_serial_lem (writes bytes ∷ actions) c =
    let (got, e, same) = run_serial_lem actions (record c { tx_buffer = c.tx_buffer ++ bytes }) in
    (got, e, same ∙ append_assoc c.tx_buffer bytes (written actions))
run_serial_lem (asks ep req ∷ actions) c =
    let (bytes, e, taken) = ask_takes ep req c in
    let (more, f, same) = run_serial_lem actions (cdc_urb ep req c).1 in
    (
      bytes ++ more,
      rw (e, f) refl,
      append_assoc bytes more (run_serial actions (cdc_urb ep req c).1).1.tx_buffer
          ∙ ap (λ bs. bytes ++ bs) same
          ∙ sym (append_assoc bytes (cdc_urb ep req c).1.tx_buffer (written actions))
          ∙ ap (λ bs. bs ++ written actions) taken,
    )
