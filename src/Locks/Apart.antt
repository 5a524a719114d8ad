-- ===== src/Locks/Apart.antt =====
-- What the tasks of src/lib.rs have locked, if they all lock the available devices first.
use nusbip.Common.{
  ℕ, zero, suc, take, get_elem?, List, [], ◌∷◌, some, Bool, true, false, ◌||◌, ◌≡◌, ◌≢◌, refl, sym,
  ◌∙◌, ap, arith, inl, inr,
}
use nusbip.Locks.{
  Request, Operation, releases, cleans, plan, Task, idle, runs, holds, wants, granted, conflict,
  clash, put, Move, begins, takes, returns, LockReach, start, next, put_cases,
}

-- All operations but `release` and `cleanup`.
unfoldable pub available_first : Operation → Bool
available_first releases = false
available_first cleans = false
available_first _ = true

-- A task that runs one of these, or none.
abbrev pub InOrder : Task → Type 0
InOrder idle = Unit
InOrder (runs op n) = available_first op ≡ true

abbrev pub clashes : List Request → List Request → Bool
clashes [] qs = false
clashes (r ∷ rs) qs = clash r qs || clashes rs qs

-- No two tasks have locked what a `RwLock` does not grant at once, and all tasks are in order.
pub record Apart (s : ℕ → Task) : Type 0 where
  pub apart : (i k : ℕ) → i ≢ k → clashes (holds (s i)) (holds (s k)) ≡ false
  pub ordered : (k : ℕ) → InOrder (s k)

conflict_symm : (q r : Request) → conflict q r ≡ conflict r q
unfolding conflict
conflict_symm q r = ground arith

taken-clashes :
    (rs : List Request) (n : ℕ) (r : Request) (qs : List Request)
    → get_elem? rs n ≡ some r
    → clashes (take (suc n) rs) qs ≡ (clashes (take n rs) qs || clash r qs)
taken-clashes [] n r qs w = cc
taken-clashes (p ∷ rs) zero r qs w = ground arith
taken-clashes (p ∷ rs) (suc n) r qs w = ground (arith, taken-clashes rs n r qs w)

holds-granted :
    (t : Task) (r : Request) (qs : List Request)
    → wants t ≡ some r
    → clashes (holds (granted t)) qs ≡ (clashes (holds t) qs || clash r qs)
unfolding holds wants granted
holds-granted idle r qs w = cc
holds-granted (runs op n) r qs w = taken-clashes (plan op) n r qs w

clashes-none : (rs : List Request) → clashes rs [] ≡ false
unfolding clash
clashes-none [] = refl
clashes-none (r ∷ rs) = clashes-none rs

clashes-cons :
    (rs : List Request) (q : Request) (qs : List Request)
    → clashes rs (q ∷ qs) ≡ (clash q rs || clashes rs qs)
unfolding clash
clashes-cons [] q qs = refl
clashes-cons (r ∷ rs) q qs = ground (arith, clashes-cons rs q qs, conflict_symm r q)

clashes_symm : (rs qs : List Request) → clashes rs qs ≡ clashes qs rs
clashes_symm rs [] = clashes-none rs
clashes_symm rs (q ∷ qs) = clashes-cons rs q qs ∙ ap (λ b. clash q rs || b) (clashes_symm rs qs)

-- A task of a system that is apart may change to one that locks nothing that another has locked.
module _ (s : ℕ → Task) (x : Apart s) (i : ℕ) (t : Task) (o : InOrder t)
    (free : (k : ℕ) → k ≢ i → clashes (holds t) (holds (s k)) ≡ false) where
  put_apart : (j k : ℕ) → j ≢ k → clashes (holds (put s i t j)) (holds (put s i t k)) ≡ false
  put_apart j k ne = elim (put_cases s i t j) [
    | inl (same, e) ↦ elim (put_cases s i t k) [
      | inl (same', f) ↦ absurd (ne (same ∙ sym same'))
      | inr (other, f) ↦ rw (e, f) (free k other)
    ]
    | inr (other, e) ↦ elim (put_cases s i t k) [
      | inl (same, f) ↦ rw (e, f) (clashes_symm (holds (s j)) (holds t) ∙ free j other)
      | inr (other', f) ↦ rw (e, f) (x.apart j k ne)
    ]
  ]

  put_ordered : (k : ℕ) → InOrder (put s i t k)
  put_ordered k = elim (put_cases s i t k) [
    | inl (same, e) ↦ rw e o
    | inr (other, e) ↦ rw e (x.ordered k)
  ]

  put-Apart : Apart (put s i t)
  put-Apart = record { apart = put_apart; ordered = put_ordered }

none_free : (t : Task) (qs : List Request) → holds t ≡ [] → clashes (holds t) qs ≡ false
none_free t qs e = rw e refl

granted-InOrder : (t : Task) → InOrder t → InOrder (granted t)
unfolding granted
granted-InOrder idle o = tt
granted-InOrder (runs op n) o = o

Move-Apart : (i : ℕ) {s t : ℕ → Task} → Move available_first i s t → Apart s → Apart t
unfolding holds
Move-Apart i {s} (begins op a e) x = put-Apart s x i (runs op 0) a λ k other. refl
Move-Apart i {s} (takes r w free) x =
    put-Apart s x i (granted (s i)) (granted-InOrder (s i) (x.ordered i)) λ k other.
      holds-granted (s i) r (holds (s k)) w
      ∙ rw (x.apart i k (λ e. other (sym e)), free k other) refl
Move-Apart i {s} (returns w busy) x = put-Apart s x i idle tt λ k other. refl

pub LockReach-Apart : {s t : ℕ → Task} → LockReach available_first s t → Apart s → Apart t
LockReach-Apart start x = x
LockReach-Apart (next {i = i} r m) x = Move-Apart i m (LockReach-Apart r x)
