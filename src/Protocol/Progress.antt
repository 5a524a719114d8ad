-- ===== src/Protocol/Progress.antt =====
-- How many bytes the parser of src/usbip_protocol.rs takes.
use nusbip.Common.{
  ℕ, zero, suc, ◌≤◌, List, [], ◌∷◌, Bool, true, false, ◌&&◌, not, ◌==◌, if◌then◌else◌, Outcome, ok,
  err, panic, hang, unknown_version, unknown_command, bind, debug_assert, debug_assert-Ends, Ends,
  arith, length,
}
use nusbip.Protocol.Input.{Reader, ◌>>=◌, pure, lift, read_u16, read_u32, read_exact}
use nusbip.Protocol.Header.{read_from_socket_with_command}
use nusbip.Protocol.Read.{
  read_devlist, read_import, read_data, read_iso, read_submit, read_unlink, read_body,
  check_version, read_from_socket,
}

-- A reader's outcome that leaves at most `n` bytes.
abbrev pub Leaves {ℓ} : {A : Type ℓ} → ℕ → Outcome (A × List ℕ) → Type 0
Leaves n (ok r) = length r.1 ≤ n
Leaves n hang = ⊥
Leaves n _ = Unit

record Takes {A : Type 0} (m : Reader A) : Type 0 where
  pub leaves : (input : List ℕ) → Leaves (length input) (m input)

Leaves-mono : {A : Type 0} (k n : ℕ) (o : Outcome (A × List ℕ)) → k ≤ n → Leaves k o → Leaves n o
Leaves-mono k n (ok r) h l = omega arith
Leaves-mono k n (err e) h l = tt
Leaves-mono k n panic h l = tt
Leaves-mono k n hang h l = l

bind-Leaves :
    {A B : Type 0} (f : A → Reader B) (n k : ℕ)
    → k ≤ n
    → ((a : A) → Takes (f a))
    → (o : Outcome (A × List ℕ)) → Leaves k o
    → Leaves n (bind o (λ r. f r.0 r.1))
bind-Leaves f n k h step (ok (a, rest)) l =
    Leaves-mono (length rest) n (f a rest) (omega arith) ((step a).leaves rest)
bind-Leaves f n k h step (err e) l = tt
bind-Leaves f n k h step panic l = tt
bind-Leaves f n k h step hang l = l

bind-Takes :
    {A B : Type 0} {m : Reader A} {f : A → Reader B}
    → Takes m
    → ((a : A) → Takes (f a))
    → Takes (m >>= f)
bind-Takes {m} {f} hm hf = record {
  leaves = λ input.
      bind-Leaves f (length input) (length input) (omega arith) hf (m input) (hm.leaves input);
}

lift-Leaves :
    {A : Type 0} (o : Outcome A) (input : List ℕ) → Ends o → Leaves (length input) (lift o input)
lift-Leaves (ok a) input h = omega arith
lift-Leaves (err e) input h = tt
lift-Leaves panic input h = tt
lift-Leaves hang input h = h

lift-Takes : {A : Type 0} (o : Outcome A) → Ends o → Takes (lift o)
lift-Takes o h = record { leaves = λ input. lift-Leaves o input h }

pure-Takes : {A : Type 0} (a : A) → Takes (pure a)
pure-Takes a = record { leaves = λ input. omega arith }

if-Takes : {A : Type 0} (b : Bool) {m n : Reader A} → Takes m → Takes n → Takes (if b then m else n)
if-Takes true hm hn = hm
if-Takes false hm hn = hn

u16-Leaves : (input : List ℕ) (n : ℕ) → length input ≤ suc n → Leaves n (read_u16 input)
unfolding read_u16
u16-Leaves [] n h = tt
u16-Leaves (a ∷ []) n h = tt
u16-Leaves (a ∷ b ∷ rest) n h = omega arith

u16-Takes : Takes read_u16
u16-Takes = record { leaves = λ input. u16-Leaves input (length input) (omega arith) }

u32-Leaves : (input : List ℕ) → Leaves (length input) (read_u32 input)
unfolding read_u32
u32-Leaves [] = tt
u32-Leaves (a ∷ []) = tt
u32-Leaves (a ∷ b ∷ []) = tt
u32-Leaves (a ∷ b ∷ c ∷ []) = tt
u32-Leaves (a ∷ b ∷ c ∷ d ∷ rest) = omega arith

u32-Takes : Takes read_u32
u32-Takes = record { leaves = u32-Leaves }

exact-Leaves : (n : ℕ) (input : List ℕ) → Leaves (length input) (read_exact n input)
unfolding read_exact
exact-Leaves zero input = omega arith
exact-Leaves (suc n) [] = tt
exact-Leaves (suc n) (b ∷ input) =
    bind-Leaves (λ bs. pure (b ∷ bs)) (suc (length input)) (length input) (omega arith)
      (λ bs. pure-Takes (b ∷ bs)) (read_exact n input) (exact-Leaves n input)

exact-Takes : (n : ℕ) → Takes (read_exact n)
exact-Takes n = record { leaves = exact-Leaves n }

assert-Takes : (debug b : Bool) → Takes (lift (debug_assert debug b))
assert-Takes debug b = lift-Takes (debug_assert debug b) (debug_assert-Ends debug b)

header-Takes : (debug : Bool) (code : ℕ) → Takes (read_from_socket_with_command debug code)
unfolding read_from_socket_with_command
header-Takes debug code = bind-Takes u32-Takes λ seqnum. bind-Takes u32-Takes λ devid.
    bind-Takes u32-Takes λ direction.
      bind-Takes (assert-Takes debug _) λ valid. bind-Takes u32-Takes λ ep. pure-Takes _

submit-Takes : (debug : Bool) → Takes (read_submit debug)
unfolding read_submit read_data read_iso
submit-Takes debug = bind-Takes (header-Takes debug _) λ header. bind-Takes u32-Takes λ flags.
    bind-Takes u32-Takes λ n. bind-Takes u32-Takes λ start. bind-Takes u32-Takes λ packets.
      bind-Takes u32-Takes λ interval. bind-Takes (exact-Takes 8) λ setup.
        bind-Takes (if-Takes (header.direction == 1) (pure-Takes []) (exact-Takes n)) λ payload.
          bind-Takes
            (if-Takes (not (packets == 0) && not (packets == 0xffff_ffff)) (exact-Takes _)
              (pure-Takes []))
            λ iso. pure-Takes _

body-Takes : (debug : Bool) (command : ℕ) → Takes (read_body debug command)
unfolding read_body read_devlist read_import read_unlink
body-Takes debug command =
    if-Takes (command == 0x8005)
      (bind-Takes u32-Takes λ status. bind-Takes (assert-Takes debug _) λ valid. pure-Takes _)
      (if-Takes (command == 0x8003)
        (bind-Takes u32-Takes λ status.
          bind-Takes (assert-Takes debug _)
            λ valid. bind-Takes (exact-Takes 32) λ busid. pure-Takes _)
        (if-Takes (command == 1) (submit-Takes debug) (
          if-Takes (command == 2)
            (bind-Takes (header-Takes debug _) λ header.
              bind-Takes u32-Takes λ n. bind-Takes (exact-Takes 24) λ padding. pure-Takes _)
            (lift-Takes (err (unknown_command command)) tt))))

version-Takes : (version : ℕ) → Takes (check_version version)
unfolding check_version
version-Takes version =
    if-Takes (not (version == 0) && not (version == 0x0111))
      (lift-Takes (err (unknown_version version)) tt) (pure-Takes tt)

-- Reading a command from at most `n + 1` bytes leaves `n` at most, and always comes to an end.
pub read-Leaves :
    (debug : Bool) (input : List ℕ) (n : ℕ)
    → length input ≤ suc n
    → Leaves n (read_from_socket debug input)
unfolding read_from_socket
read-Leaves debug input n h =
    bind-Leaves _ n n (omega arith)
      (λ version.
        bind-Takes (version-Takes version)
          λ checked. bind-Takes u16-Takes λ command. body-Takes debug command)
      (read_u16 input) (u16-Leaves input n h)
