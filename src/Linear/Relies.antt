-- ===== src/Linear/Relies.antt =====
-- What the tasks on the lists of src/lib.rs may rely on.
use nusbip.Common.{ℕ, some, ◌==◌, ==_iff, ◌≡◌, ◌≢◌, sym, subst, ◌∙◌, Bool-cases, inl, inr}
use mathlib.Core.Bool.{false≢true}
use nusbip.Server.{Server}
use nusbip.Server.Devices.{take_device, without}
use nusbip.Server.Refines.{adds, releases, removes, occupies, cleans}
use nusbip.Linear.{
  Owner, free, owned_by, Phase, idle, waits, first, second, took, took_second, pushed, Machine,
  with_device, set_phase,
}

-- What a task that has locks may rely on: they are its own, and the server `s` of whole operations
-- differs from the lists by what the task has done so far.
abbrev pub Relies : ℕ → Machine → Server → Phase → Type 0
Relies i m s idle = Unit
Relies i m s (waits a) = Unit
Relies i m s (first (releases d)) = m.used_lock ≡ owned_by i
Relies i m s (first cleans) = m.used_lock ≡ owned_by i
Relies i m s (first a) = (m.available_lock ≡ owned_by i) × (s.available ≡ m.server.available)
Relies i m s (second a) =
    (m.available_lock ≡ owned_by i)
    × (m.used_lock ≡ owned_by i)
    × (s.available ≡ m.server.available)
Relies i m s (took b d before) =
    (m.available_lock ≡ owned_by i)
    × (s.available ≡ before)
    × (take_device b before ≡ some (d, m.server.available))
Relies i m s (took_second b d before) =
    (m.available_lock ≡ owned_by i)
    × (m.used_lock ≡ owned_by i)
    × (s.available ≡ before)
    × (take_device b before ≡ some (d, m.server.available))
Relies i m s (pushed d new_ud before) =
    (m.available_lock ≡ owned_by i)
    × (m.used_lock ≡ owned_by i)
    × (s.available ≡ before)
    × (new_ud ≡ without d.bus_id m.server.used)
    × (m.server.available ≡ with_device d before)

pub record Follows (m : Machine) (s : Server) : Type 0 where
  pub same_used : s.used ≡ m.server.used
  pub unlocked : m.available_lock ≡ free → s.available ≡ m.server.available
  pub relies : (i : ℕ) → Relies i m s (m.phase i)

-- What a turn of another task leaves to the task `k`.
pub record Leaves (k : ℕ) (m : Machine) (s : Server) (m' : Machine) (s' : Server) : Type 0 where
  pub available_left :
      m.available_lock ≡ owned_by k
      → (m'.available_lock ≡ owned_by k)
        × (m'.server.available ≡ m.server.available)
        × (s'.available ≡ s.available)
  pub used_left :
      m.used_lock ≡ owned_by k → (m'.used_lock ≡ owned_by k) × (m'.server.used ≡ m.server.used)

kept :
    (k : ℕ) (m : Machine) (s : Server) (m' : Machine) (s' : Server)
    → Leaves k m s m' s'
    → (m.available_lock ≡ owned_by k) × (s.available ≡ m.server.available)
    → (m'.available_lock ≡ owned_by k) × (s'.available ≡ m'.server.available)
kept k m s m' s' l (al, e) =
    let (al', same, same_s) = l.available_left al in (al', same_s ∙ e ∙ sym same)

Relies-Leaves :
    (k : ℕ) (m : Machine) (s : Server) (m' : Machine) (s' : Server) (p : Phase)
    → Leaves k m s m' s'
    → Relies k m s p
    → Relies k m' s' p
Relies-Leaves k m s m' s' idle l r = tt
Relies-Leaves k m s m' s' (waits a) l r = tt
Relies-Leaves k m s m' s' (first (adds d)) l r = kept k m s m' s' l r
Relies-Leaves k m s m' s' (first (removes b)) l r = kept k m s m' s' l r
Relies-Leaves k m s m' s' (first (occupies b)) l r = kept k m s m' s' l r
Relies-Leaves k m s m' s' (first (releases d)) l u = (l.used_left u).0
Relies-Leaves k m s m' s' (first cleans) l u = (l.used_left u).0
Relies-Leaves k m s m' s' (second a) l (al, ul, e) =
    let (al', e') = kept k m s m' s' l (al, e) in (al', (l.used_left ul).0, e')
Relies-Leaves k m s m' s' (took b d before) l (al, e, t) =
    let (al', same, same_s) = l.available_left al in (al', same_s ∙ e, rw same t)
Relies-Leaves k m s m' s' (took_second b d before) l (al, ul, e, t) =
    let (al', same, same_s) = l.available_left al in
    (al', (l.used_left ul).0, same_s ∙ e, rw same t)
Relies-Leaves k m s m' s' (pushed d new_ud before) l (al, ul, e, new, now) =
    let (al', same, same_s) = l.available_left al in
    let (ul', same_u) = l.used_left ul in (al', ul', same_s ∙ e, rw same_u new, rw same now)

-- What is left where the task `i` has a lock, or none has it, or nothing changes.
pub other_owner : (o : Owner) (i k : ℕ) → o ≡ owned_by i → k ≢ i → o ≢ owned_by k
other_owner o i k e ne f = ne (cc)

pub none_owner : (o : Owner) (k : ℕ) → o ≡ free → o ≢ owned_by k
none_owner o k e f = cc

-- A machine after a turn.
abbrev pub after : ℕ → Machine → Phase → Server → (al ul : Owner) → Machine
after i m p lists_after al ul = record {
  server = lists_after;
  available_lock = al;
  used_lock = ul;
  phase = set_phase i p m.phase;
}

module _ (i : ℕ) (m : Machine) (s s' : Server) (p : Phase) (lists_after : Server) (al ul : Owner)
    (f : Follows m s) where
  pub turned :
      s'.used ≡ lists_after.used
      → (al ≡ free → s'.available ≡ lists_after.available)
      → Relies i (after i m p lists_after al ul) s' p
      → ((k : ℕ) → k ≢ i → Leaves k m s (after i m p lists_after al ul) s')
      → Follows (after i m p lists_after al ul) s'
  turned same unlocked own others = record { same_used = same; unlocked = unlocked; relies = all }
    where
      all : (k : ℕ) → Relies k (after i m p lists_after al ul) s' (set_phase i p m.phase k)
      all k = elim (Bool-cases (k == i)) [
        | inl e ↦ rw e (
            subst (λ j. Relies j (after i m p lists_after al ul) s' p) (sym ((==_iff k i).0 e)) own)
        | inr e ↦ rw e (
            Relies-Leaves k m s (after i m p lists_after al ul) s' (m.phase k)
              (others k (λ same. false≢true (sym e ∙ (==_iff k i).1 same))) (f.relies k))
      ]
