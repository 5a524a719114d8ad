-- ===== src/Verify.antt =====
-- src/util.rs: `verify_descriptor`, and what it accepts.
use nusbip.Common.{
  ℕ, zero, suc, ◌+◌, ◌<◌, List, [], ◌∷◌, ◌++◌, append_assoc, append-nil, ltb, ◌==◌, if◌then◌else◌,
  length, length-append, get_or, Outcome, ok, panic, hang, ◌≡◌, refl, sym, ◌∙◌, subst, arith,
}

-- The loop, with fuel for its rounds. A round at a length byte 0 does not move, and then no later
-- one does; any other round moves on, so a loop that ends does so within `length desc` rounds.
unfoldable pub verify_from : ℕ → ℕ → List ℕ → Outcome (Unit {0})
verify_from zero offset desc = hang
verify_from (suc rounds) offset desc =
    let next = verify_from rounds (offset + get_or desc offset 0) desc in
    if ltb offset (length desc) then next else if offset == length desc then ok tt else panic

unfoldable pub verify_descriptor : List ℕ → Outcome (Unit {0})
unfolding verify_from
verify_descriptor desc = verify_from (suc (length desc)) 0 desc

-- A row of descriptors, each of which begins with its own length.
pub data Pieces : List ℕ → Type 0 where
  none_left : Pieces []
  piece :
      (n : ℕ) (body rest : List ℕ)
      → n ≡ suc (length body)
      → Pieces rest
      → Pieces (n ∷ (body ++ rest))

pub Pieces-append : {xs ys : List ℕ} → Pieces xs → Pieces ys → Pieces (xs ++ ys)
Pieces-append none_left q = q
Pieces-append {ys} (piece n body rest e p) q =
    subst (λ zs. Pieces (n ∷ zs)) (sym (append_assoc body rest ys))
      (piece n body (rest ++ ys) e (Pieces-append p q))

get_or-append : (pre : List ℕ) (x : ℕ) (xs : List ℕ) → get_or (pre ++ (x ∷ xs)) (length pre) 0 ≡ x
get_or-append [] x xs = refl
get_or-append (y ∷ pre) x xs = get_or-append pre x xs

at_end : (rounds : ℕ) (pre : List ℕ) → verify_from (suc rounds) (length pre) (pre ++ []) ≡ ok tt
unfolding verify_from
at_end rounds pre = rw append-nil (ground arith)

at_piece :
    (rounds n : ℕ) (pre body rest : List ℕ)
    → n ≡ suc (length body)
    → verify_from (suc rounds) (length pre) (pre ++ (n ∷ (body ++ rest)))
      ≡ verify_from rounds (length (pre ++ (n ∷ body))) ((pre ++ (n ∷ body)) ++ rest)
unfolding verify_from
at_piece rounds n pre body rest e =
    rw
      (
        get_or-append pre n (body ++ rest),
        append_assoc,
        length-append pre (n ∷ body),
        length-append pre (n ∷ (body ++ rest)),
      )
      (rw e (ground arith))

Pieces-run :
    {desc : List ℕ} (rounds : ℕ) (pre : List ℕ)
    → Pieces desc
    → length desc < rounds
    → verify_from rounds (length pre) (pre ++ desc) ≡ ok tt
Pieces-run zero pre p h = absurd (omega arith)
Pieces-run (suc rounds) pre none_left h = at_end rounds pre
Pieces-run (suc rounds) pre (piece n body rest e p) h =
    at_piece rounds n pre body rest e
    ∙ Pieces-run rounds (pre ++ (n ∷ body)) p (omega (arith, length-append body rest))

-- Every row of descriptors that begin with their own length is accepted.
pub verify-Pieces : (desc : List ℕ) → Pieces desc → verify_descriptor desc ≡ ok tt
unfolding verify_descriptor
verify-Pieces desc p = Pieces-run (suc (length desc)) [] p (omega arith)
