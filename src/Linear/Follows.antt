-- ===== src/Linear/Follows.antt =====
-- What each turn of a task on the lists of src/lib.rs is as a whole operation, or as none.
use nusbip.Common.{ℕ, List, [], ◌∷◌, ◌++◌, ok, ◌≡◌, refl, sym, ap, subst, ◌∙◌}
use nusbip.Device.{UsbDevice}
use nusbip.Server.{Server, add_device, occupy, release, cleanup}
use nusbip.Server.Devices.{take_device, without}
use nusbip.Server.Refines.{ServerAction, adds, releases, removes, occupies, cleans}
use nusbip.Linear.{
  Owner, free, owned_by, Phase, idle, waits, first, second, took, took_second, pushed, Machine,
  Event, with_device, goes, locks_available, locks_used, StartsAvailable, StartsUsed, Turn, begins,
  first_available, first_used, second_available, add_ends, remove_ends, remove_fails, occupy_fails,
  occupy_takes, occupy_locks, occupy_ends, release_pushes, release_ends, cleanup_ends, lists,
}
use nusbip.Linear.Relies.{Relies, Follows, after, turned, other_owner, none_owner}
use nusbip.Linear.Whole.{
  Done, lists_of, server_eq, remove_found, remove_missing, occupy_found, occupy_missing,
}

first_available-Relies :
    (i : ℕ) (a : ServerAction) (m : Machine) (s : Server)
    → StartsAvailable a
    → m.available_lock ≡ owned_by i
    → s.available ≡ m.server.available
    → Relies i m s (first a)
first_available-Relies i (adds d) m s starts al e = (al, e)
first_available-Relies i (removes b) m s starts al e = (al, e)
first_available-Relies i (occupies b) m s starts al e = (al, e)
first_available-Relies i (releases d) m s starts al e = absurd starts
first_available-Relies i cleans m s starts al e = absurd starts

first_used-Relies :
    (i : ℕ) (a : ServerAction) (m : Machine) (s : Server)
    → StartsUsed a
    → m.used_lock ≡ owned_by i
    → Relies i m s (first a)
first_used-Relies i (releases d) m s starts ul = ul
first_used-Relies i cleans m s starts ul = ul
first_used-Relies i (adds d) m s starts ul = absurd starts
first_used-Relies i (removes b) m s starts ul = absurd starts
first_used-Relies i (occupies b) m s starts ul = absurd starts

first_used_owned :
    (i : ℕ) (a : ServerAction) (m : Machine) (s : Server)
    → StartsUsed a
    → Relies i m s (first a)
    → m.used_lock ≡ owned_by i
first_used_owned i (releases d) m s starts ul = ul
first_used_owned i cleans m s starts ul = ul
first_used_owned i (adds d) m s starts r = absurd starts
first_used_owned i (removes b) m s starts r = absurd starts
first_used_owned i (occupies b) m s starts r = absurd starts

module _ (i : ℕ) (m : Machine) (s : Server) (f : Follows m s) where
  stands : (p : Phase) → m.phase i ≡ p → Relies i m s p
  stands p e = subst (Relies i m s) e (f.relies i)

  begins-Follows : (a : ServerAction) → Follows (goes i (waits a) m) s
  begins-Follows a =
      turned i m s s (waits a) m.server m.available_lock m.used_lock f f.same_used f.unlocked tt
        λ k ne. record { available_left = λ h. (h, refl, refl); used_left = λ h. (h, refl) }

  takes_available :
      (p : Phase)
      → m.available_lock ≡ free
      → ((s.available ≡ m.server.available) → Relies i (goes i p (locks_available i m)) s p)
      → Follows (goes i p (locks_available i m)) s
  takes_available p open_lock r =
      turned i m s s p m.server (owned_by i) m.used_lock f f.same_used (λ e. absurd (cc))
        (r (f.unlocked open_lock))
        λ k ne. record {
          available_left = λ h. absurd (none_owner _ k open_lock h);
          used_left = λ h. (h, refl);
        }

  takes_used :
      (p : Phase)
      → m.used_lock ≡ free
      → Relies i (goes i p (locks_used i m)) s p
      → Follows (goes i p (locks_used i m)) s
  takes_used p open_lock r =
      turned i m s s p m.server m.available_lock (owned_by i) f f.same_used f.unlocked r λ k ne.
        record {
          available_left = λ h. (h, refl, refl);
          used_left = λ h. absurd (none_owner _ k open_lock h);
        }

  -- A turn of a task that has the lock of the available devices, in which it changes only these, and
  -- keeps the lock or not.
  owns_available :
      (p : Phase) (s' : Server) (available : List UsbDevice) (al : Owner)
      → m.available_lock ≡ owned_by i
      → s'.used ≡ s.used
      → (al ≡ free → s'.available ≡ available)
      → Relies i (after i m p (lists_of available m.server.used) al m.used_lock) s' p
      → Follows (after i m p (lists_of available m.server.used) al m.used_lock) s'
  owns_available p s' available al mine same unlocked r =
      turned i m s s' p (lists_of available m.server.used) al m.used_lock f (same ∙ f.same_used)
        unlocked r
        λ k ne. record {
          available_left = λ h. absurd (other_owner _ i k mine ne h);
          used_left = λ h. (h, refl);
        }

  -- A turn of a task that has both locks.
  owns_both :
      (p : Phase) (s' : Server) (available used : List UsbDevice) (al ul : Owner)
      → m.available_lock ≡ owned_by i
      → m.used_lock ≡ owned_by i
      → s'.used ≡ used
      → (al ≡ free → s'.available ≡ available)
      → Relies i (after i m p (lists_of available used) al ul) s' p
      → Follows (after i m p (lists_of available used) al ul) s'
  owns_both p s' available used al ul mine mine' same unlocked r =
      turned i m s s' p (lists_of available used) al ul f same unlocked r λ k ne. record {
        available_left = λ h. absurd (other_owner _ i k mine ne h);
        used_left = λ h. absurd (other_owner _ i k mine' ne h);
      }

  pub Turn-Follows :
      {es : List Event} {m' : Machine}
      → Turn i m es m'
      → (s' : Server) × Done es s s' × Follows m' s'
  unfolding add_device release cleanup
  Turn-Follows (begins a e) = (s, refl, begins-Follows a)
  Turn-Follows (first_available a starts e open_lock) = (
    s,
    refl,
    takes_available (first a) open_lock λ same.
        first_available-Relies i a (goes i (first a) (locks_available i m)) s starts refl same,
  )
  Turn-Follows (first_used a starts e open_lock) = (
    s,
    refl,
    takes_used (first a) open_lock
        (first_used-Relies i a (goes i (first a) (locks_used i m)) s starts refl),
  )
  Turn-Follows (second_available a starts e open_lock) =
      let mine = first_used_owned i a m s starts (stands (first a) e) in
      (s, refl, takes_available (second a) open_lock λ same. (refl, mine, same))
  Turn-Follows (add_ends d e) =
      let (mine, same) = stands (first (adds d)) e in
      (
        add_device d s,
        refl,
        owns_available idle (add_device d s) (m.server.available ++ (d ∷ [])) free mine refl
            (λ h. ap (λ ds. ds ++ (d ∷ [])) same) tt,
      )
  Turn-Follows (remove_ends b d rest e t) =
      let (mine, same) = stands (first (removes b)) e in
      (
        record s { available = rest },
        remove_found b s d rest (ap (take_device b) same ∙ t),
        owns_available idle (record s { available = rest }) rest free mine refl (λ h. refl) tt,
      )
  Turn-Follows (remove_fails b e t open_lock) =
      let (mine, same) = stands (first (removes b)) e in
      (
        s,
        rw (sym f.same_used) (remove_missing b s (ap (take_device b) same ∙ t)),
        owns_available idle s m.server.available free mine refl (λ h. same) tt,
      )
  Turn-Follows (occupy_fails b e t) =
      let (mine, same) = stands (first (occupies b)) e in
      (
        s,
        occupy_missing b s (ap (take_device b) same ∙ t),
        owns_available idle s m.server.available free mine refl (λ h. same) tt,
      )
  Turn-Follows (occupy_takes b d rest e t) =
      let (mine, same) = stands (first (occupies b)) e in
      (
        s,
        refl,
        owns_available (took b d m.server.available) s rest m.available_lock mine refl (λ h. cc)
            (mine, same, t),
      )
  Turn-Follows (occupy_locks b d before e open_lock) =
      let r = stands (took b d before) e in
      (s, refl, takes_used (took_second b d before) open_lock (r.0, refl, r.1, r.2))
  Turn-Follows (occupy_ends b d before e) =
      let (mine, mine', same, t) = stands (took_second b d before) e in
      let s' : Server = lists_of m.server.available (with_device d m.server.used) in
      (
        s',
        subst (λ ud. occupy b s ≡ (ok d, lists_of m.server.available (with_device d ud)))
            f.same_used (occupy_found b s d m.server.available (ap (take_device b) same ∙ t)),
        owns_both idle s' m.server.available (with_device d m.server.used) free free mine mine' refl
            (λ h. refl) tt,
      )
  Turn-Follows (release_pushes d e) =
      let (mine, mine', same) = stands (second (releases d)) e in
      (
        s,
        refl,
        owns_both (pushed d (without d.bus_id m.server.used) m.server.available) s
            (with_device d m.server.available) m.server.used m.available_lock m.used_lock mine mine'
            f.same_used (λ h. cc) (mine, mine', same, refl, refl),
      )
  Turn-Follows (release_ends d new_ud before e) =
      let (mine, mine', same, new, now) = stands (pushed d new_ud before) e in
      let s' : Server = lists_of m.server.available new_ud in
      (
        s',
        server_eq _ _ _ _ (ap (with_device d) same ∙ sym now)
            (ap (without d.bus_id) f.same_used ∙ sym new),
        owns_both idle s' m.server.available new_ud free free mine mine' refl (λ h. refl) tt,
      )
  Turn-Follows (cleanup_ends e) =
      let (mine, mine', same) = stands (second cleans) e in
      (
        lists_of [] [],
        refl,
        owns_both idle (lists_of [] []) [] [] free free mine mine' refl (λ h. refl) tt,
      )
  Turn-Follows (lists e open_lock) = (s, (f.unlocked open_lock, refl), f)
