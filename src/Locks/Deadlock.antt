-- ===== src/Locks/Deadlock.antt =====
-- Two tasks of src/lib.rs that lock the two lists in opposite orders.
use nusbip.Common.{
  ℕ, [], some, Bool, true, false, ◌≡◌, ◌≢◌, refl, sym, ap, ◌∙◌, ◌==◌, ==_iff, Bool-cases, inl, inr,
}
use mathlib.Core.Bool.{false≢true}
use nusbip.Locks.{
  Request, write_available, write_used, Operation, occupies_some, releases, Task, idle, runs, holds,
  wants, granted, clash, put, Move, begins, takes, returns, LockReach, start, next, any_operation,
  put_same, put_other,
}

-- One task has the lock of the available devices and waits for that of the used ones, and another has
-- the latter and waits for the former.
abbrev pub IsDeadlocked : (i j : ℕ) → (ℕ → Task) → Type 0
IsDeadlocked i j s = (s i ≡ runs occupies_some 1) × (s j ≡ runs releases 1)

wants_used : wants (runs occupies_some 1) ≡ some write_used
unfolding wants
wants_used = refl

wants_available : wants (runs releases 1) ≡ some write_available
unfolding wants
wants_available = refl

used_clash : clash write_used (holds (runs releases 1)) ≡ true
unfolding clash holds
used_clash = refl

available_clash : clash write_available (holds (runs occupies_some 1)) ≡ true
unfolding clash holds
available_clash = refl

module _ (allowed : Operation → Bool) (i j : ℕ) (ne : i ≢ j) where
  -- Neither of two deadlocked tasks moves.
  still_first : (k : ℕ) {s t : ℕ → Task} → Move allowed k s t → IsDeadlocked i j s → k ≢ i
  still_first k (begins op a e) (di, dj) same = cc
  still_first k (takes r w free) (di, dj) same =
      false≢true (cc (wants_used, used_clash, free j (λ (e : j ≡ k). ne (sym (e ∙ same)))))
  still_first k (returns w busy) (di, dj) same = cc wants_used

  still_second : (k : ℕ) {s t : ℕ → Task} → Move allowed k s t → IsDeadlocked i j s → k ≢ j
  still_second k (begins op a e) (di, dj) same = cc
  still_second k (takes r w free) (di, dj) same =
      false≢true (cc (wants_available, available_clash, free i (λ (e : i ≡ k). ne (e ∙ same))))
  still_second k (returns w busy) (di, dj) same = cc wants_available

  moved_other : (k : ℕ) {s t : ℕ → Task} → Move allowed k s t → (m : ℕ) → m ≢ k → t m ≡ s m
  moved_other k {s} (begins op a e) m other = put_other s k m (runs op 0) other
  moved_other k {s} (takes r w free) m other = put_other s k m (granted (s k)) other
  moved_other k {s} (returns w busy) m other = put_other s k m idle other

  Move-IsDeadlocked :
      (k : ℕ) {s t : ℕ → Task} → Move allowed k s t → IsDeadlocked i j s → IsDeadlocked i j t
  Move-IsDeadlocked k m (di, dj) = (
    moved_other k m i (λ same. still_first k m (di, dj) (sym same)) ∙ di,
    moved_other k m j (λ same. still_second k m (di, dj) (sym same)) ∙ dj,
  )

  LockReach-IsDeadlocked :
      {s t : ℕ → Task} → LockReach allowed s t → IsDeadlocked i j s → IsDeadlocked i j t
  LockReach-IsDeadlocked start d = d
  LockReach-IsDeadlocked (next {i = k} r m) d = Move-IsDeadlocked k m (LockReach-IsDeadlocked r d)

-- One task begins to occupy a device and locks the available ones; then another begins to release a
-- device and locks the used ones.
abbrev run_first : ℕ → (ℕ → Task) → ℕ → Task
run_first i s = let s' = put s i (runs occupies_some 0) in put s' i (granted (s' i))

abbrev pub run_both : (i j : ℕ) → (ℕ → Task) → ℕ → Task
run_both i j s = let s' = put (run_first i s) j (runs releases 0) in put s' j (granted (s' j))

-- A task that has begun and is granted its first request.
begun : (s : ℕ → Task) (i : ℕ) (op : Operation) → granted (put s i (runs op 0) i) ≡ runs op 1
unfolding granted
begun s i op = ap granted (put_same s i (runs op 0))

begun_wants :
    (s : ℕ → Task) (i : ℕ) (op : Operation) → wants (put s i (runs op 0) i) ≡ wants (runs op 0)
begun_wants s i op = ap wants (put_same s i (runs op 0))

nothing_held : (r : Request) (t : Task) → holds t ≡ [] → clash r (holds t) ≡ false
unfolding clash
nothing_held r t e = rw e refl

module _ (i j : ℕ) (s : ℕ → Task) (ne : i ≢ j) (idle_i : s i ≡ idle) (idle_j : s j ≡ idle)
    (free : (k : ℕ) → holds (s k) ≡ []) where
  first_at : run_first i s i ≡ runs occupies_some 1
  first_at = put_same _ i _ ∙ begun s i occupies_some

  first_other : (k : ℕ) → k ≢ i → run_first i s k ≡ s k
  first_other k other = put_other _ i k _ other ∙ put_other s i k (runs occupies_some 0) other

  run_first-LockReach : LockReach any_operation s (run_first i s)
  unfolding wants
  run_first-LockReach = next (next start (begins occupies_some refl idle_i)) (
      takes write_available (begun_wants s i occupies_some) λ k other.
        nothing_held write_available _
          (ap holds (put_other s i k (runs occupies_some 0) other) ∙ free k))

  used_free : (k : ℕ) → clash write_used (holds (run_first i s k)) ≡ false
  unfolding clash holds
  used_free k = elim (Bool-cases (k == i)) [
    | inl e ↦
        ap (λ (m : ℕ). clash write_used (holds (run_first i s m))) ((==_iff k i).0 e)
        ∙ ap (λ (t : Task). clash write_used (holds t)) first_at
    | inr e ↦
        nothing_held write_used _
          (ap holds (first_other k (λ f. false≢true (sym e ∙ (==_iff k i).1 f))) ∙ free k)
  ]

  run_both-LockReach : LockReach any_operation s (run_both i j s)
  unfolding wants
  run_both-LockReach =
      next
        (next run_first-LockReach (begins releases refl (first_other j (λ e. ne (sym e)) ∙ idle_j)))
        (takes write_used (begun_wants (run_first i s) j releases) λ k other.
          ap (λ (t : Task). clash write_used (holds t))
            (put_other (run_first i s) j k (runs releases 0) other)
          ∙ used_free k)

  run_both-IsDeadlocked : IsDeadlocked i j (run_both i j s)
  run_both-IsDeadlocked = (
    put_other _ j i _ ne ∙ put_other (run_first i s) j i (runs releases 0) ne ∙ first_at,
    put_same _ j _ ∙ begun (run_first i s) j releases,
  )

-- Where no task has a lock, two idle tasks can get to a state in which the one has locked the available
-- devices to occupy one, and the other the used devices to release one; in every state that is
-- reached from there, both are still where they are.
pub deadlock_lem :
    (i j : ℕ) (s t : ℕ → Task)
    → i ≢ j
    → s i ≡ idle
    → s j ≡ idle
    → ((k : ℕ) → holds (s k) ≡ [])
    → LockReach any_operation (run_both i j s) t
    → LockReach any_operation s (run_both i j s) × IsDeadlocked i j t
deadlock_lem i j s t ne idle_i idle_j free r = (
  run_both-LockReach i j s ne idle_i idle_j free,
  LockReach-IsDeadlocked any_operation i j ne r (run_both-IsDeadlocked i j s ne idle_i idle_j free),
)
