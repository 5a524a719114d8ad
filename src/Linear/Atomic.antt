-- ===== src/Linear/Atomic.antt =====
-- The turns of tasks on the lists of src/lib.rs, against whole operations in some order.
use nusbip.Common.{ℕ, sym, inl, inr, ◌⊎◌, List, [], ◌∷◌, ◌++◌, append-nil, ◌≡◌, refl, subst}
use nusbip.Server.{Server}
use nusbip.Linear.{Owner, owned_by, free, idle, Machine, Event, Turns, start, next}
use nusbip.Linear.Relies.{Follows}
use nusbip.Linear.Whole.{Atomic, none_yet, then_one, Done}
use nusbip.Linear.Follows.{Turn-Follows}

Done-Atomic :
    (s t u : Server) (es fs : List Event) → Atomic s es t → Done fs t u → Atomic s (es ++ fs) u
Done-Atomic s t u es [] r e = subst (Atomic s (es ++ [])) e (rw append-nil r)
Done-Atomic s t u es (e ∷ []) r p = then_one e r p
Done-Atomic s t u es (e ∷ e' ∷ fs) r p = absurd p

Turns-Follows :
    {m m' : Machine} {es : List Event} (s : Server)
    → Turns m es m'
    → Follows m s
    → (s' : Server) × Atomic s es s' × Follows m' s'
Turns-Follows s start f = (s, none_yet, f)
Turns-Follows s (next {es} {fs} {n} {o} {i} r turn) f =
    let (t, done, g) = Turns-Follows s r f in
    let (u, last, h) = Turn-Follows i n t g turn in (u, Done-Atomic s t u es fs done last, h)

-- A machine with no task on the way.
abbrev pub quiet : Server → Machine
quiet s = record { server = s; available_lock = free; used_lock = free; phase = λ i. idle }

-- Whatever turns tasks take at once, in any order, from a state with no operation on the way: the
-- operations that came to their ends are, in the order of their ends and with what they returned, a
-- run of whole operations, one after the other. The list of the used devices is the one after that run,
-- and so is that of the available devices, unless a task has these locked.
pub turns_lem :
    (s : Server) (m : Machine) (es : List Event)
    → Turns (quiet s) es m
    → (t : Server) × Atomic s es t
      × (m.server.used ≡ t.used)
      × ((m.server.available ≡ t.available) ⊎ ((i : ℕ) × (m.available_lock ≡ owned_by i)))
turns_lem s m es r =
    let (t, done, f) =
      Turns-Follows s r (record { same_used = refl; unlocked = λ e. refl; relies = λ i. tt }) in
    (t, done, sym f.same_used, by_lock t f m.available_lock refl)
  where
    by_lock :
        (t : Server)
        → Follows m t
        → (o : Owner) → m.available_lock ≡ o
        → (m.server.available ≡ t.available) ⊎ ((i : ℕ) × (m.available_lock ≡ owned_by i))
    by_lock t f free e = inl (sym (f.unlocked e))
    by_lock t f (owned_by i) e = inr (i, e)
