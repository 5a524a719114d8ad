-- ===== src/Device/Fresh.antt =====
-- Which index `UsbDevice::new_string` of src/device.rs gives to a string, and when it gives none.
use nusbip.Common.{
  ℕ, zero, suc, ◌+◌, ◌%◌, ◌≤◌, ◌<◌, List, none, some, Bool, true, false, ok, panic, hang, ◌≡◌, ◌≢◌,
  refl, sym, ap, subst, ◌∙◌, arith, Option-cases, inl, inr, ◌⊎◌,
}
use native.Mathlib.Decide.{ℕ_discrete}
use nusbip.Device.Pool.{Strings, get, insert, new_string_from, new_string}

-- Every index from `lo` on and below `hi` has a string.
abbrev pub Taken : ℕ → ℕ → Strings → Type 0
Taken lo hi pool = (j : ℕ) → lo ≤ j → j < hi → get j pool ≢ none

-- One round.
round_taken :
    (debug : Bool) (rounds i : ℕ) (s : List ℕ) (pool : Strings)
    → i < 255
    → get i pool ≢ none
    → new_string_from debug (suc rounds) i s pool ≡ new_string_from debug rounds (i + 1) s pool
unfolding new_string_from
round_taken debug rounds i s pool h taken = elim (Option-cases (get i pool)) [
  | inl e ↦ absurd (taken e)
  | inr (t, e) ↦ ground (arith, ap (λ (k : ℕ). new_string_from debug rounds k s pool) no_wrap)
]
  where
    no_wrap : (i + 1) % 256 ≡ i + 1
    no_wrap = omega arith

round_free :
    (debug : Bool) (rounds i : ℕ) (s : List ℕ) (pool : Strings)
    → i < 255
    → get i pool ≡ none
    → new_string_from debug (suc rounds) i s pool ≡ ok (i, insert i s pool)
unfolding new_string_from
round_free debug rounds i s pool h free = ground arith

round_255 :
    (rounds : ℕ) (s : List ℕ) (pool : Strings)
    → new_string_from true (suc rounds) 255 s pool ≡ panic
unfolding new_string_from
round_255 rounds s pool = refl

-- The two ends of a run of rounds: the first index, and what the last round found.
abbrev Found : Strings → List ℕ → ℕ × Strings → Type 0
Found pool s r = (r.0 < 256) × (get r.0 pool ≡ none) × (r.1 ≡ insert r.0 s pool)

Taken-cons : (k i : ℕ) (pool : Strings) → get k pool ≢ none → Taken (k + 1) i pool → Taken k i pool
Taken-cons k i pool taken rest j lo hi = elim (ℕ_discrete k j) [
  | yes e ↦ subst (λ x. get x pool ≢ none) e taken
  | no ne ↦ rest j (omega arith) hi
]

zero_round :
    (debug : Bool) (rounds : ℕ) (s : List ℕ) (pool : Strings) (r : ℕ × Strings)
    → rounds ≤ 1
    → new_string_from debug rounds 0 s pool ≡ ok r
    → (r.0 ≡ 0) × Found pool s r
unfolding new_string_from
zero_round debug zero s pool r h e = cc
zero_round debug (suc zero) s pool r h e = ground arith
zero_round debug (suc (suc n)) s pool r h e = absurd (omega arith)

last_round :
    (debug : Bool) (rounds : ℕ) (s : List ℕ) (pool : Strings) (r : ℕ × Strings)
    → rounds ≤ 1
    → new_string_from debug (suc rounds) 255 s pool ≡ ok r
    → Found pool s r × ((r.0 ≡ 255) ⊎ (r.0 ≡ 0))
unfolding new_string_from
last_round debug rounds s pool r h e = ground (arith, zero_round debug rounds s pool r h)

search_lem :
    (debug : Bool) (rounds k : ℕ) (s : List ℕ) (pool : Strings) (r : ℕ × Strings)
    → 1 ≤ k
    → k < 256
    → rounds + k ≤ 257
    → new_string_from debug rounds k s pool ≡ ok r
    → Found pool s r × ((r.0 ≡ 0) ⊎ ((k ≤ r.0) × Taken k r.0 pool))
search_lem debug zero k s pool r lo hi bound e = unfold new_string_from in cc
search_lem debug (suc rounds) k s pool r lo hi bound e = elim (ℕ_discrete k 255) [
  | yes last ↦ at_last last (last_round debug rounds s pool r (omega arith) (rw last at e))
  | no inner ↦ elim (Option-cases (get k pool)) [
    | inl free ↦ at_free (cc (e, round_free debug rounds k s pool (omega arith) free)) free
    | inr (t, taken) ↦
        at_taken (λ h. cc)
          (search_lem debug rounds (k + 1) s pool r (omega arith) (omega arith) (omega arith)
            (cc (e, round_taken debug rounds k s pool (omega arith) (λ h. cc))))
  ]
]
  where
    at_last :
        k ≡ 255
        → Found pool s r × ((r.0 ≡ 255) ⊎ (r.0 ≡ 0))
        → Found pool s r × ((r.0 ≡ 0) ⊎ ((k ≤ r.0) × Taken k r.0 pool))
    at_last e (f, inl x) = (f, inr (omega arith, λ j a b. absurd (omega arith)))
    at_last e (f, inr x) = (f, inl x)

    at_free :
        r ≡ (k, insert k s pool)
        → get k pool ≡ none
        → Found pool s r × ((r.0 ≡ 0) ⊎ ((k ≤ r.0) × Taken k r.0 pool))
    at_free x free =
        let e0 : r.0 ≡ k = ap (λ (q : ℕ × Strings). q.0) x in
        let e1 : r.1 ≡ insert k s pool = ap (λ (q : ℕ × Strings). q.1) x in
        ((omega arith, rw e0 free, rw (e0, e1)), inr (omega arith, λ j a b. absurd (omega arith)))

    at_taken :
        get k pool ≢ none
        → Found pool s r × ((r.0 ≡ 0) ⊎ ((k + 1 ≤ r.0) × Taken (k + 1) r.0 pool))
        → Found pool s r × ((r.0 ≡ 0) ⊎ ((k ≤ r.0) × Taken k r.0 pool))
    at_taken t (f, inl x) = (f, inl x)
    at_taken t (f, inr (x, y)) = (f, inr (omega arith, Taken-cons k r.0 pool t y))

-- An index that is handed out fits a byte, was free, now has the string, and every smaller index
-- but 0 is taken.
pub new_string-least :
    (debug : Bool) (s : List ℕ) (pool : Strings) (r : ℕ × Strings)
    → new_string debug s pool ≡ ok r
    → (r.0 < 256) × (get r.0 pool ≡ none) × (r.1 ≡ insert r.0 s pool) × Taken 1 r.0 pool
unfolding new_string
new_string-least debug s pool r e =
    conclude (search_lem debug 256 1 s pool r (omega arith) (omega arith) (omega arith) e)
  where
    conclude :
        Found pool s r × ((r.0 ≡ 0) ⊎ ((1 ≤ r.0) × Taken 1 r.0 pool))
        → (r.0 < 256) × (get r.0 pool ≡ none) × (r.1 ≡ insert r.0 s pool) × Taken 1 r.0 pool
    conclude (f, inl x) = (f.0, f.1, f.2, λ j a b. absurd (omega arith))
    conclude (f, inr x) = (f.0, f.1, f.2, x.1)

-- Rounds on top of others, so that `count n r` starts with `n` successors.
abbrev count : ℕ → ℕ → ℕ
count zero r = r
count (suc n) r = suc (count n r)

-- Taken indices are passed over one after the other.
pass_over :
    (debug : Bool) (n r k : ℕ) (s : List ℕ) (pool : Strings)
    → k + n ≤ 255
    → Taken k (k + n) pool
    → new_string_from debug (count n r) k s pool ≡ new_string_from debug r (k + n) s pool
pass_over debug zero r k s pool bound taken =
    ap (λ (x : ℕ). new_string_from debug r x s pool) (omega arith)
pass_over debug (suc n) r k s pool bound taken =
    round_taken debug (count n r) k s pool (omega arith) (taken k (omega arith) (omega arith))
    ∙ pass_over debug n r (k + 1) s pool (omega arith)
        (λ j a b. taken j (omega arith) (omega arith))
    ∙ ap (λ (x : ℕ). new_string_from debug r x s pool) (omega arith)

later :
    (k i : ℕ) (pool : Strings) (t : List ℕ)
    → k ≤ i
    → get i pool ≡ none
    → get k pool ≡ some t
    → k < i
later k i pool t lo free taken = elim (ℕ_discrete k i) [
  | yes e ↦ absurd (differ (subst (λ x. get x pool ≡ none) (sym e) free))
  | no ne ↦ omega arith
]
  where
    differ : get k pool ≡ none → ⊥
    differ f = cc

search_total :
    (debug : Bool) (rounds k i : ℕ) (s : List ℕ) (pool : Strings)
    → k ≤ i
    → i ≤ 254
    → i < rounds + k
    → get i pool ≡ none
    → (j : ℕ) × (new_string_from debug rounds k s pool ≡ ok (j, insert j s pool))
      × (k ≤ j)
      × (j ≤ i)
search_total debug zero k i s pool lo hi bound free = absurd (omega arith)
search_total debug (suc rounds) k i s pool lo hi bound free = elim (Option-cases (get k pool)) [
  | inl e ↦ (k, round_free debug rounds k s pool (omega arith) e, omega arith, lo)
  | inr (t, e) ↦
      let past : k < i = later k i pool t lo free e in
      let (j, f, a, b) =
        search_total debug rounds (k + 1) i s pool (omega arith) hi (omega arith) free in
      (j, round_taken debug rounds k s pool (omega arith) (λ h. cc) ∙ f, omega arith, b)
]

-- In every build, a pool with a free index from 1 to 254 takes the string, at an index that is not 0
-- and not above that one.
pub new_string_total :
    (debug : Bool) (i : ℕ) (s : List ℕ) (pool : Strings)
    → 1 ≤ i
    → i ≤ 254
    → get i pool ≡ none
    → (j : ℕ) × (new_string debug s pool ≡ ok (j, insert j s pool)) × (1 ≤ j) × (j ≤ i)
unfolding new_string
new_string_total debug i s pool lo hi free =
    search_total debug 256 1 i s pool lo hi (omega arith) free

-- With the indices from 1 to 254 taken, a debug build panics even if 255 is free.
pub new_string_panics :
    (s : List ℕ) (pool : Strings) → Taken 1 255 pool → new_string true s pool ≡ panic
unfolding new_string
new_string_panics s pool taken =
    pass_over true 254 2 1 s pool (omega arith) taken ∙ round_255 1 s pool

-- With the indices from 1 to 255 taken, a release build goes round: it puts the string at 0, the
-- index that stands for no string, if that is free, and otherwise never returns.
pub new_string_wraps :
    (s : List ℕ) (pool : Strings)
    → Taken 1 256 pool
    → new_string false s pool ≡ elim (get 0 pool) [ none ↦ ok (0, insert 0 s pool) | some _ ↦ hang ]
unfolding new_string
new_string_wraps s pool taken =
    pass_over false 254 2 1 s pool (omega arith) (λ j a b. taken j a (omega arith))
    ∙ wrap (taken 255 (omega arith) (omega arith))
  where
    wrap :
        get 255 pool ≢ none
        → new_string_from false 2 255 s pool
          ≡ elim (get 0 pool) [ none ↦ ok (0, insert 0 s pool) | some _ ↦ hang ]
    wrap h = elim (Option-cases (get 255 pool)) [ inl e ↦ absurd (h e) | inr (t, e) ↦ rw e refl ]
