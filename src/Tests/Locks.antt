-- ===== src/Tests/Locks.antt =====
-- Two tasks of src/lib.rs that lock the device lists.
use nusbip.Common.{ℕ, [], true, ◌≡◌, refl, ap, arith}
use nusbip.Locks.{
  write_available, occupies_some, Task, idle, runs, holds, wants, granted, clash, put, begins,
  takes, LockReach, start, next, any_operation, put_other,
}
use nusbip.Locks.Deadlock.{IsDeadlocked, run_both, deadlock_lem}
use nusbip.Locks.Apart.{available_first}
use nusbip.Locks.Progress.{Alone, progress_lem}

abbrev quiet : ℕ → Task
quiet k = idle

nothing_held : (k : ℕ) → holds (quiet k) ≡ []
unfolding holds
nothing_held k = refl

deadlock_example :
    LockReach any_operation quiet (run_both 0 1 quiet) × IsDeadlocked 0 1 (run_both 0 1 quiet)
deadlock_example =
    deadlock_lem 0 1 quiet (run_both 0 1 quiet) (omega arith) refl refl nothing_held start

abbrev begun : ℕ → Task
begun = put quiet 0 (runs occupies_some 0)

abbrev locked : ℕ → Task
locked = put begun 0 (granted (begun 0))

locked-LockReach : LockReach available_first quiet locked
unfolding available_first wants put holds clash
locked-LockReach = next (next start (begins occupies_some refl refl)) (
    takes write_available refl λ k other.
      ap (λ (t : Task). clash write_available (holds t))
        (put_other quiet 0 k (runs occupies_some 0) other))

clash-locked : clash write_available (holds (locked 0)) ≡ true
unfolding put granted holds clash
clash-locked = refl

progress_example : (t : ℕ → Task) × Alone 0 locked t × (t 0 ≡ idle)
progress_example = progress_lem locked 0 write_available locked-LockReach clash-locked
