-- ===== src/Locks.antt =====
-- The locks of `UsbIpServer` in src/lib.rs: `available_devices` and `used_devices` are each behind a
-- `RwLock` of the library tokio, and an operation keeps what it has locked until it returns.
pub mod Deadlock
pub mod Apart
pub mod Progress
use nusbip.Common.{
  ℕ, zero, suc, take, get_elem?, List, [], ◌∷◌, Option, none, some, Bool, true, false, ◌||◌, ◌==◌,
  if◌then◌else◌, ==_iff, Bool-cases, inl, inr, ◌≡◌, ◌≢◌, refl, sym, subst, ◌⊎◌, ◌∙◌,
}
use mathlib.Core.Bool.{false≢true}

-- What an operation asks of a lock: `write()` or `read()`.
pub data Request : Type 0 where
  write_available read_available write_used read_used : Request

-- The operations, by the paths through them that lock differently: `remove_device` looks at the used
-- devices only if the device is not available, and `occupy` only if it is.
pub data Operation : Type 0 where
  adds removes_available removes_other occupies_none occupies_some releases cleans lists : Operation

-- The requests of an operation, in order.
unfoldable pub plan : Operation → List Request
plan adds = write_available ∷ []
plan removes_available = write_available ∷ []
plan removes_other = write_available ∷ read_used ∷ []
plan occupies_none = write_available ∷ []
plan occupies_some = write_available ∷ write_used ∷ []
plan releases = write_used ∷ write_available ∷ []
plan cleans = write_used ∷ write_available ∷ []
plan lists = read_available ∷ []

-- A task runs an operation, of whose requests the first `n` are granted.
pub data Task : Type 0 where
  idle : Task
  runs : Operation → (n : ℕ) → Task

-- What a task has locked, and what it waits for.
unfoldable pub holds : Task → List Request
unfolding plan
holds idle = []
holds (runs op n) = take n (plan op)

unfoldable pub wants : Task → Option Request
unfolding plan
wants idle = none
wants (runs op n) = get_elem? (plan op) n

unfoldable pub granted : Task → Task
granted idle = idle
granted (runs op n) = runs op (suc n)

-- Two requests that a `RwLock` does not grant at once.
unfoldable pub conflict : Request → Request → Bool
conflict write_available write_available = true
conflict write_available read_available = true
conflict read_available write_available = true
conflict write_used write_used = true
conflict write_used read_used = true
conflict read_used write_used = true
conflict _ _ = false

unfoldable pub clash : Request → List Request → Bool
unfolding conflict
clash r [] = false
clash r (q ∷ qs) = conflict r q || clash r qs

unfoldable pub put : (ℕ → Task) → ℕ → Task → ℕ → Task
put s i t j = if j == i then t else s j

-- A task begins an operation that is allowed, is granted its next request once no other task holds a
-- conflicting one, or returns and unlocks all.
pub data Move (allowed : Operation → Bool) (i : ℕ) (s : ℕ → Task) : (ℕ → Task) → Type 0 where
  begins :
      (op : Operation) → allowed op ≡ true → s i ≡ idle → Move allowed i s (put s i (runs op 0))
  takes :
      (r : Request)
      → wants (s i) ≡ some r
      → ((k : ℕ) → k ≢ i → clash r (holds (s k)) ≡ false)
      → Move allowed i s (put s i (granted (s i)))
  returns : wants (s i) ≡ none → s i ≢ idle → Move allowed i s (put s i idle)

pub data LockReach (allowed : Operation → Bool) (s : ℕ → Task) : (ℕ → Task) → Type 0 where
  start : LockReach allowed s s
  next :
      {t u : ℕ → Task} {i : ℕ} → LockReach allowed s t → Move allowed i t u → LockReach allowed s u

-- Every operation may run at any time.
abbrev pub any_operation : Operation → Bool
any_operation op = true

pub put_same : (s : ℕ → Task) (i : ℕ) (t : Task) → put s i t i ≡ t
unfolding put
put_same s i t = rw ((==_iff i i).1 refl) refl

pub put_other : (s : ℕ → Task) (i j : ℕ) (t : Task) → j ≢ i → put s i t j ≡ s j
unfolding put
put_other s i j t ne = elim (Bool-cases (j == i)) [
  | inl e ↦ absurd (ne ((==_iff j i).0 e))
  | inr e ↦ rw e refl
]

-- A task is the one that changes, or as before.
pub put_cases :
    (s : ℕ → Task) (i : ℕ) (t : Task) (j : ℕ)
    → ((j ≡ i) × (put s i t j ≡ t)) ⊎ ((j ≢ i) × (put s i t j ≡ s j))
put_cases s i t j = elim (Bool-cases (j == i)) [
  | inl e ↦
      inl ((==_iff j i).0 e, subst (λ m. put s i t m ≡ t) (sym ((==_iff j i).0 e)) (put_same s i t))
  | inr e ↦
      let ne : j ≢ i = λ same. false≢true (sym e ∙ (==_iff j i).1 same) in
      inr (ne, put_other s i j t ne)
]
