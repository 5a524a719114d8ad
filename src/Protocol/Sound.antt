-- ===== src/Protocol/Sound.antt =====
-- Whatever the parser of src/usbip_protocol.rs accepts is a well-formed command.
use nusbip.Common.{
  ◌≢◌, ℕ, zero, suc, ◌*◌, ◌≤◌, List, [], ◌∷◌, Bool, true, false, ◌&&◌, not, ◌==◌, if◌then◌else◌,
  Outcome, ok, err, panic, hang, bind, debug_assert, unknown_version, unknown_command, subst,
  bit_and, All, IsByte, IsU16, IsU32, ◌≡◌, ◌⊎◌, inl, inr, refl, arith, length,
}
use nusbip.Common.Bits.{low_bit}
use nusbip.Protocol.Input.{Reader, ◌>>=◌, pure, lift, read_u16, read_u32, read_exact}
use nusbip.Protocol.Header.{
  HeaderBasic, read_from_socket_with_command, usbip_cmd_submit, usbip_cmd_unlink,
}
use nusbip.Protocol.Command.{Command}
use nusbip.Protocol.WellFormed.{
  InDebug, HeaderIsWellFormed, IsWellFormed, payload_length, iso_length,
}
use nusbip.Protocol.Read.{
  read_devlist, read_import, read_data, read_iso, read_submit, read_unlink, read_body,
  check_version, read_from_socket,
}

-- Every value that a reader returns on an input of bytes has the property, and leaves bytes.
abbrev After : {A : Type 0} → (A → Type 0) → Outcome (A × List ℕ) → Type 0
After P (ok r) = P r.0 × All IsByte r.1
After P _ = Unit

pub record Returns {A : Type 0} (P : A → Type 0) (m : Reader A) : Type 0 where
  pub run : (input : List ℕ) → All IsByte input → After P (m input)

After-bind :
    {A B : Type 0} (P : A → Type 0) (Q : B → Type 0) (f : A → Reader B)
    → ((a : A) → P a → Returns Q (f a))
    → (o : Outcome (A × List ℕ)) → After P o
    → After Q (bind o (λ r. f r.0 r.1))
After-bind P Q f step (ok r) h = (step r.0 h.0).run r.1 h.1
After-bind P Q f step (err e) h = tt
After-bind P Q f step panic h = tt
After-bind P Q f step hang h = tt

Returns-bind :
    {A B : Type 0} {P : A → Type 0} {Q : B → Type 0} {m : Reader A} {f : A → Reader B}
    → Returns P m
    → ((a : A) → P a → Returns Q (f a))
    → Returns Q (m >>= f)
Returns-bind {P} {Q} {m} {f} hm hf = record {
  run = λ input b. After-bind P Q f hf (m input) (hm.run input b);
}

Returns-pure : {A : Type 0} {P : A → Type 0} (a : A) → P a → Returns P (pure a)
Returns-pure a p = record { run = λ input b. (p, b) }

Returns-if :
    {A : Type 0} {P : A → Type 0} (c : Bool) {m n : Reader A}
    → (c ≡ true → Returns P m)
    → (c ≡ false → Returns P n)
    → Returns P (if c then m else n)
Returns-if true hm hn = hm refl
Returns-if false hm hn = hn refl

Returns-err :
    {A : Type 0} {P : A → Type 0} (o : Outcome A) → ((a : A) → o ≢ ok a) → Returns P (lift o)
Returns-err {P} (ok a) h = absurd (h a refl)
Returns-err (err e) h = record { run = λ input b. tt }
Returns-err panic h = record { run = λ input b. tt }
Returns-err hang h = record { run = λ input b. tt }

-- A debug assertion that passes says something only in a debug build.
Returns-assert :
    (debug c : Bool) → Returns (λ _. (debug ≡ false) ⊎ (c ≡ true)) (lift (debug_assert debug c))
Returns-assert true true = Returns-pure tt (inr refl)
Returns-assert true false = record { run = λ input b. tt }
Returns-assert false c = Returns-pure tt (inl refl)

IsU16-run : (input : List ℕ) → All IsByte input → After IsU16 (read_u16 input)
unfolding read_u16
IsU16-run [] b = tt
IsU16-run (x ∷ []) b = tt
IsU16-run (x ∷ y ∷ rest) b = (omega arith, b.1.1)

IsU32-run : (input : List ℕ) → All IsByte input → After IsU32 (read_u32 input)
unfolding read_u32
IsU32-run [] b = tt
IsU32-run (x ∷ []) b = tt
IsU32-run (x ∷ y ∷ []) b = tt
IsU32-run (x ∷ y ∷ z ∷ []) b = tt
IsU32-run (x ∷ y ∷ z ∷ w ∷ rest) b = (omega arith, b.1.1.1.1)

exact_run :
    (n : ℕ) (input : List ℕ) → All IsByte input → After (λ bs. length bs ≡ n) (read_exact n input)
unfolding read_exact
exact_run zero input b = (refl, b)
exact_run (suc n) [] b = tt
exact_run (suc n) (x ∷ input) b =
    After-bind (λ bs. length bs ≡ n) (λ bs. length bs ≡ suc n) (λ bs rest. ok (x ∷ bs, rest))
      (λ bs e. record { run = λ rest h. (omega arith, h) }) (read_exact n input)
      (exact_run n input b.1)

Returns-IsU16 : Returns IsU16 read_u16
Returns-IsU16 = record { run = IsU16-run }

Returns-IsU32 : Returns IsU32 read_u32
Returns-IsU32 = record { run = IsU32-run }

Returns-exact : (n : ℕ) → Returns (λ bs. length bs ≡ n) (read_exact n)
Returns-exact n = record { run = exact_run n }

direction_tested : (d : ℕ) → (bit_and d 1 == d) ≡ true → d ≤ 1
direction_tested d h = ground (arith, low_bit d)

in_debug :
    {debug c : Bool} {P : Type 0} → (c ≡ true → P) → (debug ≡ false) ⊎ (c ≡ true) → InDebug debug P
in_debug f (inl h) = inl h
in_debug f (inr h) = inr (f h)

Returns-header :
    (debug : Bool) (code : ℕ)
    → IsU32 code
    → Returns (HeaderIsWellFormed debug code) (read_from_socket_with_command debug code)
unfolding read_from_socket_with_command
Returns-header debug code hc = Returns-bind Returns-IsU32 λ seqnum h1.
    Returns-bind Returns-IsU32 λ devid h2. Returns-bind Returns-IsU32 λ direction h3.
      Returns-bind (Returns-assert debug _) λ _ h4. Returns-bind Returns-IsU32 λ ep h5.
        Returns-pure _ (record {
          code_fits = refl;
          fields = record {
            command_fits = hc;
            seqnum_fits = h1;
            devid_fits = h2;
            direction_fits = h3;
            ep_fits = h5;
          };
          direction_valid = in_debug (direction_tested direction) h4;
        })

Returns-data :
    (h : HeaderBasic) (n : ℕ)
    → Returns (λ bs. length bs ≡ (if h.direction == 1 then 0 else n)) (read_data h n)
unfolding read_data
Returns-data h n =
    Returns-if (h.direction == 1) (λ e. Returns-pure [] (rw e)) (λ e. rw e (Returns-exact n))

Returns-iso :
    (n : ℕ)
    → Returns
        (λ bs. length bs ≡ (if not (n == 0) && not (n == 0xffff_ffff) then 16 * n else 0))
        (read_iso n)
unfolding read_iso
Returns-iso n =
    Returns-if (not (n == 0) && not (n == 0xffff_ffff)) (λ e. rw e (Returns-exact (16 * n)))
      (λ e. Returns-pure [] (rw e))

Returns-submit : (debug : Bool) → Returns (IsWellFormed debug) (read_submit debug)
unfolding read_submit payload_length iso_length
Returns-submit debug =
    Returns-bind (Returns-header debug usbip_cmd_submit (omega arith)) λ header wh.
      Returns-bind Returns-IsU32 λ flags h1. Returns-bind Returns-IsU32 λ n h2.
        Returns-bind Returns-IsU32 λ frame h3. Returns-bind Returns-IsU32 λ packets h4.
          Returns-bind Returns-IsU32 λ interval h5. Returns-bind (Returns-exact 8) λ setup h6.
            Returns-bind (Returns-data header n) λ payload h7.
              Returns-bind (Returns-iso packets) λ iso h8. Returns-pure _ (
                wh,
                record {
                  transfer_flags_fits = h1;
                  transfer_buffer_length_fits = h2;
                  start_frame_fits = h3;
                  number_of_packets_fits = h4;
                  interval_fits = h5;
                  setup_length = h6;
                  payload_fits = h7;
                  iso_fits = h8;
                },
              )

Returns-unlink : (debug : Bool) → Returns (IsWellFormed debug) (read_unlink debug)
unfolding read_unlink
Returns-unlink debug =
    Returns-bind (Returns-header debug usbip_cmd_unlink (omega arith)) λ header wh.
      Returns-bind Returns-IsU32
        λ n h1. Returns-bind (Returns-exact 24) λ _ h2. Returns-pure _ (wh, h1)

status_tested : (s : ℕ) → (s == 0) ≡ true → s ≡ 0
status_tested s h = ground arith

Returns-devlist : (debug : Bool) → Returns (IsWellFormed debug) (read_devlist debug)
unfolding read_devlist
Returns-devlist debug = Returns-bind Returns-IsU32 λ status h1.
    Returns-bind (Returns-assert debug _)
      λ _ h2. Returns-pure _ (h1, in_debug (status_tested status) h2)

Returns-import : (debug : Bool) → Returns (IsWellFormed debug) (read_import debug)
unfolding read_import
Returns-import debug = Returns-bind Returns-IsU32 λ status h1.
    Returns-bind (Returns-assert debug _) λ _ h2.
      Returns-bind (Returns-exact 32)
        λ busid h3. Returns-pure _ (h1, in_debug (status_tested status) h2, h3)

Returns-body : (debug : Bool) (code : ℕ) → Returns (IsWellFormed debug) (read_body debug code)
unfolding read_body
Returns-body debug code =
    Returns-if (code == 0x8005) (λ _. Returns-devlist debug)
      λ _.
        Returns-if (code == 0x8003) (λ _. Returns-import debug)
          λ _.
            Returns-if (code == 1) (λ _. Returns-submit debug)
              λ _.
                Returns-if (code == 2) (λ _. Returns-unlink debug)
                  λ _. Returns-err (err (unknown_command code)) (λ a e. cc)

Returns-version : (version : ℕ) → Returns (λ _. Unit {0}) (check_version version)
unfolding check_version
Returns-version version =
    Returns-if (not (version == 0) && not (version == 0x111))
      (λ _. Returns-err (err (unknown_version version)) (λ a e. cc)) (λ _. Returns-pure tt tt)

Returns-command : (debug : Bool) → Returns (IsWellFormed debug) (read_from_socket debug)
unfolding read_from_socket
Returns-command debug = Returns-bind Returns-IsU16 λ version _.
    Returns-bind (Returns-version version)
      λ _ _. Returns-bind Returns-IsU16 λ code _. Returns-body debug code

-- Whatever the parser accepts on an input of bytes is a well-formed command: its fields fit, its
-- arrays have their lengths, its data and packet descriptors are as long as announced, and in a
-- debug build its status is 0 and its direction at most 1.
pub read-IsWellFormed :
    (debug : Bool) (input rest : List ℕ) (c : Command)
    → All IsByte input
    → read_from_socket debug input ≡ ok (c, rest)
    → IsWellFormed debug c
read-IsWellFormed debug input rest c b e =
    (subst (After (IsWellFormed debug)) e ((Returns-command debug).run input b)).0
