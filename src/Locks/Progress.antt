-- ===== src/Locks/Progress.antt =====
-- The operations of src/lib.rs that lock the available devices first.
use nusbip.Common.{
  ℕ, zero, suc, [], ◌∷◌, none, some, true, false, ◌||◌, ◌≡◌, ◌≢◌, refl, sym, ◌∙◌, ap, subst,
  Bool-cases, Option-cases, inl, inr, ◌⊎◌,
}
use mathlib.Core.Bool.{false≢true}
use nusbip.Locks.Apart.{available_first, InOrder, clashes, Apart, LockReach-Apart}
use nusbip.Locks.{
  Request, write_available, write_used, read_used, adds, removes_available, removes_other,
  occupies_none, occupies_some, releases, cleans, lists, Task, idle, runs, holds, wants, granted,
  clash, put, Move, takes, returns, LockReach, put_same, put_same,
}

-- A task that has the lock of the used devices has that of the available ones too.
has_available :
    (t : Task) (r : Request)
    → InOrder t
    → (r ≡ write_used) ⊎ (r ≡ read_used)
    → clash r (holds t) ≡ true
    → clash write_available (holds t) ≡ true
unfolding holds clash available_first
has_available idle r o u c = cc
has_available (runs op zero) r o u c = cc
has_available (runs adds (suc n)) r o u c = refl
has_available (runs removes_available (suc n)) r o u c = refl
has_available (runs removes_other (suc n)) r o u c = refl
has_available (runs occupies_none (suc n)) r o u c = refl
has_available (runs occupies_some (suc n)) r o u c = refl
has_available (runs releases (suc n)) r o u c = cc
has_available (runs cleans (suc n)) r o u c = cc
has_available (runs lists (suc n)) r o u c = refl

-- A task that has some lock and waits for another has that of the available devices and waits for
-- that of the used ones.
waits_used :
    (t : Task) (q r : Request)
    → InOrder t
    → clash q (holds t) ≡ true
    → wants t ≡ some r
    → (holds t ≡ write_available ∷ []) × ((r ≡ write_used) ⊎ (r ≡ read_used))
unfolding holds wants clash available_first
waits_used idle q r o c w = cc
waits_used (runs op zero) q r o c w = cc
waits_used (runs adds (suc n)) q r o c w = cc
waits_used (runs removes_available (suc n)) q r o c w = cc
waits_used (runs removes_other (suc zero)) q r o c w = (refl, inr cc)
waits_used (runs removes_other (suc (suc n))) q r o c w = cc
waits_used (runs occupies_none (suc n)) q r o c w = cc
waits_used (runs occupies_some (suc zero)) q r o c w = (refl, inl cc)
waits_used (runs occupies_some (suc (suc n))) q r o c w = cc
waits_used (runs releases (suc n)) q r o c w = cc
waits_used (runs cleans (suc n)) q r o c w = cc
waits_used (runs lists (suc n)) q r o c w = cc

busy : (t : Task) (q : Request) → clash q (holds t) ≡ true → t ≢ idle
unfolding holds clash
busy t q c e = false≢true (sym (ap (λ (u : Task). clash q (holds u)) e) ∙ c)

-- What a task waits for that has locked something is free for it.
next_free :
    (s : ℕ → Task) (j k : ℕ) (q r : Request)
    → Apart s
    → clash q (holds (s j)) ≡ true
    → wants (s j) ≡ some r
    → k ≢ j
    → clash r (holds (s k)) ≡ false
next_free s j k q r x c w other = elim (Bool-cases (clash r (holds (s k)))) [
  | inl taken ↦
      let (has, used) = waits_used (s j) q r (x.ordered j) c w in
      let apart : clashes (write_available ∷ []) (holds (s k)) ≡ false =
        subst (λ hs. clashes hs (holds (s k)) ≡ false) has (x.apart j k (λ e. other (sym e))) in
      absurd (
        false≢true
          (sym apart ∙ ap (λ b. b || false) (has_available (s k) r (x.ordered k) used taken)))
  | inr f ↦ f
]

-- An operation in order asks for two locks at most.
last_wait :
    (t : Task) (q r : Request)
    → InOrder t
    → clash q (holds t) ≡ true
    → wants t ≡ some r
    → wants (granted t) ≡ none
unfolding holds wants granted clash available_first
last_wait idle q r o c w = cc
last_wait (runs op zero) q r o c w = cc
last_wait (runs adds (suc n)) q r o c w = refl
last_wait (runs removes_available (suc n)) q r o c w = refl
last_wait (runs removes_other (suc n)) q r o c w = refl
last_wait (runs occupies_none (suc n)) q r o c w = refl
last_wait (runs occupies_some (suc n)) q r o c w = refl
last_wait (runs releases (suc n)) q r o c w = cc
last_wait (runs cleans (suc n)) q r o c w = cc
last_wait (runs lists (suc n)) q r o c w = refl

granted_busy : (t : Task) → t ≢ idle → granted t ≢ idle
unfolding granted
granted_busy idle ne e = ne refl
granted_busy (runs op n) ne e = cc

-- Moves of one task, while all others stand still.
pub data Alone (j : ℕ) (s : ℕ → Task) : (ℕ → Task) → Type 0 where
  stays : Alone j s s
  moves : {t u : ℕ → Task} → Alone j s t → Move available_first j t u → Alone j s u

holder_ends :
    (s : ℕ → Task) (j : ℕ) (q : Request)
    → Apart s
    → clash q (holds (s j)) ≡ true
    → (t : ℕ → Task) × Alone j s t × (t j ≡ idle)
holder_ends s j q x c = elim (Option-cases (wants (s j))) [
  | inl e ↦ (_, moves stays (returns e (busy (s j) q c)), put_same s j idle)
  | inr (r, e) ↦
      let s' : ℕ → Task = put s j (granted (s j)) in
      let same : s' j ≡ granted (s j) = put_same s j (granted (s j)) in
      (
        _,
        moves (moves stays (takes r e λ k other. next_free s j k q r x c e other)) (
            returns (ap wants same ∙ last_wait (s j) q r (x.ordered j) c e)
              (λ h. granted_busy (s j) (busy (s j) q c) (sym same ∙ h))),
        put_same s' j idle,
      )
]

-- If all tasks start idle and run no `release` and no `cleanup`, then whoever stands in the way of a
-- request can always end its operation by moves of its own, which unlock what it has, while all others
-- stand still.
pub progress_lem :
    (s : ℕ → Task) (j : ℕ) (q : Request)
    → LockReach available_first (λ k. idle) s
    → clash q (holds (s j)) ≡ true
    → (t : ℕ → Task) × Alone j s t × (t j ≡ idle)
unfolding holds
progress_lem s j q r c =
    holder_ends s j q (LockReach-Apart r (record { apart = λ i k ne. refl; ordered = λ k. tt })) c
