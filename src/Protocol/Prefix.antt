-- ===== src/Protocol/Prefix.antt =====
-- The parser of src/usbip_protocol.rs on an input that is cut off, or that goes on.
use nusbip.Common.{
  ℕ, zero, suc, List, [], ◌∷◌, ◌++◌, Bool, true, false, ◌&&◌, not, ◌==◌, if◌then◌else◌, Outcome, ok,
  err, panic, hang, bind, unexpected_eof, unknown_version, unknown_command, ◌≡◌, ◌≢◌, refl, subst,
  ap, ◌∙◌, arith, append-nil, length, length-append,
}
use nusbip.Protocol.Input.{Reader, ◌>>=◌, pure, lift, read_u16, read_u32, read_exact}
use nusbip.Protocol.Header.{HeaderBasic, read_from_socket_with_command}
use nusbip.Protocol.Command.{Command, command_to_bytes}
use nusbip.Protocol.WellFormed.{IsWellFormed}
use nusbip.Protocol.RoundTrip.{read-to_bytes}
use nusbip.Protocol.Read.{
  read_devlist, read_import, read_data, read_iso, read_submit, read_unlink, read_body,
  check_version, read_from_socket,
}

-- What an outcome becomes when `more` follows the input: the rest grows by it, and a failure that
-- is not for want of bytes stays.
abbrev Extends {ℓ} : {A : Type ℓ} → List ℕ → Outcome (A × List ℕ) → Outcome (A × List ℕ) → Type ℓ
Extends more (ok r) o = o ≡ ok (r.0, r.1 ++ more)
Extends more (err unexpected_eof) o = Unit
Extends more (err e) o = o ≡ err e
Extends more panic o = o ≡ panic
Extends more hang o = o ≡ hang

-- A reader that does not look past what it takes.
pub record IsLocal {ℓ} {A : Type ℓ} (m : Reader A) : Type ℓ where
  pub extends : (input more : List ℕ) → Extends more (m input) (m (input ++ more))

bind_step :
    {A B : Type 0} (f : A → Reader B) (more : List ℕ)
    → ((a : A) (input : List ℕ) → Extends more (f a input) (f a (input ++ more)))
    → (o o' : Outcome (A × List ℕ)) → Extends more o o'
    → Extends more (bind o (λ r. f r.0 r.1)) (bind o' (λ r. f r.0 r.1))
bind_step f more step (ok r) o' h = rw h (step r.0 r.1)
bind_step f more step (err unexpected_eof) o' h = tt
bind_step f more step (err _) o' h = rw h
bind_step f more step panic o' h = rw h
bind_step f more step hang o' h = rw h

bind-IsLocal :
    {A B : Type 0} {m : Reader A} {f : A → Reader B}
    → IsLocal m
    → ((a : A) → IsLocal (f a))
    → IsLocal (m >>= f)
bind-IsLocal {m} {f} hm hf = record {
  extends = λ input more.
      bind_step f more (λ a i. (hf a).extends i more) (m input) (m (input ++ more))
        (hm.extends input more);
}

lift-Extends :
    {A : Type 0} (o : Outcome A) (input more : List ℕ)
    → Extends more (lift o input) (lift o (input ++ more))
lift-Extends (ok a) input more = refl
lift-Extends (err unexpected_eof) input more = tt
lift-Extends (err _) input more = refl
lift-Extends panic input more = refl
lift-Extends hang input more = refl

lift-IsLocal : {A : Type 0} (o : Outcome A) → IsLocal (lift o)
lift-IsLocal o = record { extends = lift-Extends o }

pure-IsLocal : {A : Type 0} (a : A) → IsLocal (pure a)
pure-IsLocal a = record { extends = λ input more. refl }

if-IsLocal :
    {A : Type 0} (b : Bool) {m n : Reader A} → IsLocal m → IsLocal n → IsLocal (if b then m else n)
if-IsLocal true hm hn = hm
if-IsLocal false hm hn = hn

u16-Extends : (input more : List ℕ) → Extends more (read_u16 input) (read_u16 (input ++ more))
unfolding read_u16
u16-Extends [] more = tt
u16-Extends (a ∷ []) more = tt
u16-Extends (a ∷ b ∷ rest) more = refl

u32-Extends : (input more : List ℕ) → Extends more (read_u32 input) (read_u32 (input ++ more))
unfolding read_u32
u32-Extends [] more = tt
u32-Extends (a ∷ []) more = tt
u32-Extends (a ∷ b ∷ []) more = tt
u32-Extends (a ∷ b ∷ c ∷ []) more = tt
u32-Extends (a ∷ b ∷ c ∷ d ∷ rest) more = refl

exact-Extends :
    (n : ℕ) (input more : List ℕ) → Extends more (read_exact n input) (read_exact n (input ++ more))
unfolding read_exact
exact-Extends zero input more = refl
exact-Extends (suc n) [] more = tt
exact-Extends (suc n) (b ∷ input) more =
    bind_step (λ bs rest. ok (b ∷ bs, rest)) more (λ bs rest. refl) (read_exact n input)
      (read_exact n (input ++ more)) (exact-Extends n input more)

u16-IsLocal : IsLocal read_u16
u16-IsLocal = record { extends = u16-Extends }

u32-IsLocal : IsLocal read_u32
u32-IsLocal = record { extends = u32-Extends }

exact-IsLocal : (n : ℕ) → IsLocal (read_exact n)
exact-IsLocal n = record { extends = exact-Extends n }

header-IsLocal : (debug : Bool) (code : ℕ) → IsLocal (read_from_socket_with_command debug code)
unfolding read_from_socket_with_command
header-IsLocal debug code = bind-IsLocal u32-IsLocal λ seqnum. bind-IsLocal u32-IsLocal λ devid.
    bind-IsLocal u32-IsLocal
      λ direction. bind-IsLocal (lift-IsLocal _) λ _. bind-IsLocal u32-IsLocal λ ep. pure-IsLocal _

data-IsLocal : (h : HeaderBasic) (n : ℕ) → IsLocal (read_data h n)
unfolding read_data
data-IsLocal h n = if-IsLocal (h.direction == 1) (pure-IsLocal []) (exact-IsLocal n)

iso-IsLocal : (n : ℕ) → IsLocal (read_iso n)
unfolding read_iso
iso-IsLocal n =
    if-IsLocal (not (n == 0) && not (n == 0xffff_ffff)) (exact-IsLocal _) (pure-IsLocal [])

submit-IsLocal : (debug : Bool) → IsLocal (read_submit debug)
unfolding read_submit
submit-IsLocal debug = bind-IsLocal (header-IsLocal debug _) λ header.
    bind-IsLocal u32-IsLocal λ flags. bind-IsLocal u32-IsLocal λ n.
      bind-IsLocal u32-IsLocal λ frame. bind-IsLocal u32-IsLocal λ packets.
        bind-IsLocal u32-IsLocal λ interval. bind-IsLocal (exact-IsLocal 8) λ setup.
          bind-IsLocal (data-IsLocal header n)
            λ payload. bind-IsLocal (iso-IsLocal packets) λ iso. pure-IsLocal _

unlink-IsLocal : (debug : Bool) → IsLocal (read_unlink debug)
unfolding read_unlink
unlink-IsLocal debug =
    bind-IsLocal (header-IsLocal debug _)
      λ header. bind-IsLocal u32-IsLocal λ n. bind-IsLocal (exact-IsLocal 24) λ _. pure-IsLocal _

devlist-IsLocal : (debug : Bool) → IsLocal (read_devlist debug)
unfolding read_devlist
devlist-IsLocal debug =
    bind-IsLocal u32-IsLocal λ status. bind-IsLocal (lift-IsLocal _) λ _. pure-IsLocal _

import-IsLocal : (debug : Bool) → IsLocal (read_import debug)
unfolding read_import
import-IsLocal debug = bind-IsLocal u32-IsLocal λ status.
    bind-IsLocal (lift-IsLocal _) λ _. bind-IsLocal (exact-IsLocal 32) λ busid. pure-IsLocal _

body-IsLocal : (debug : Bool) (code : ℕ) → IsLocal (read_body debug code)
unfolding read_body
body-IsLocal debug code = if-IsLocal (code == 0x8005) (devlist-IsLocal debug) (
    if-IsLocal (code == 0x8003) (import-IsLocal debug) (
      if-IsLocal (code == 1) (submit-IsLocal debug) (
        if-IsLocal (code == 2) (unlink-IsLocal debug) (lift-IsLocal (err (unknown_command code))))))

version-IsLocal : (version : ℕ) → IsLocal (check_version version)
unfolding check_version
version-IsLocal version =
    if-IsLocal (not (version == 0) && not (version == 0x111))
      (lift-IsLocal (err (unknown_version version))) (pure-IsLocal tt)

pub read-IsLocal : (debug : Bool) → IsLocal (read_from_socket debug)
unfolding read_from_socket
read-IsLocal debug = bind-IsLocal u16-IsLocal λ version.
    bind-IsLocal (version-IsLocal version)
      λ _. bind-IsLocal u16-IsLocal λ code. body-IsLocal debug code

-- A command that was read stays the command read, whatever arrives behind it.
pub read-append :
    (debug : Bool) (input more rest : List ℕ) (c : Command)
    → read_from_socket debug input ≡ ok (c, rest)
    → read_from_socket debug (input ++ more) ≡ ok (c, rest ++ more)
read-append debug input more rest c e =
    subst (λ o. Extends more o (read_from_socket debug (input ++ more))) e
      ((read-IsLocal debug).extends input more)

no_extension : (x : ℕ) (back rest : List ℕ) → rest ++ (x ∷ back) ≢ []
no_extension x back rest e = absurd (omega (arith, length-append rest (x ∷ back), ap length e))

-- Only an input that ends too early can become a whole command with nothing left.
cut_off :
    (c : Command) (x : ℕ) (back : List ℕ) (o : Outcome (Command × List ℕ))
    → Extends (x ∷ back) o (ok (c, []))
    → o ≡ err unexpected_eof
cut_off c x back (ok r) h = absurd (no_extension x back r.1 (cc))
cut_off c x back (err unexpected_eof) h = refl
cut_off c x back (err _) h = cc
cut_off c x back panic h = cc
cut_off c x back hang h = cc

-- On every proper prefix of what the serialiser writes for a well-formed command, the parser ends
-- in an `UnexpectedEof`: no other command, no other error and no panic.
pub read_truncated :
    (debug : Bool) (c : Command) (front : List ℕ) (x : ℕ) (back : List ℕ)
    → IsWellFormed debug c
    → command_to_bytes debug c ≡ ok (front ++ (x ∷ back))
    → read_from_socket debug front ≡ err unexpected_eof
read_truncated debug c front x back w e = cut_off c x back (read_from_socket debug front) (
    subst (Extends (x ∷ back) (read_from_socket debug front)) whole
      ((read-IsLocal debug).extends front (x ∷ back)))
  where
    round :
        (bytes : List ℕ) × (command_to_bytes debug c ≡ ok bytes)
        × (read_from_socket debug (bytes ++ []) ≡ ok (c, []))
    round = read-to_bytes debug c [] w

    same : round.0 ++ [] ≡ front ++ (x ∷ back)
    same = append-nil round.0 ∙ cc (round.1, e)

    whole : read_from_socket debug (front ++ (x ∷ back)) ≡ ok (c, [])
    whole = rw (← same) round.2
