-- ===== src/Server/Refines.antt =====
-- The two lists of `UsbIpServer` in src/lib.rs against a state for each bus id, over any row of
-- operations.
use nusbip.Common.{
  ℕ, List, [], ◌∷◌, Option, none, some, Bool, true, false, if◌then◌else◌, bytes_eq, bytes_eq_refl,
  Outcome, ok, err, device_in_use, device_not_found, ◌≡◌, refl, ap, ◌∙◌, Bool-cases, inl, inr,
}
use nusbip.Device.{UsbDevice}
use nusbip.Server.{Server, handle_of, add_device, remove_device, occupy, release, cleanup}
use nusbip.Server.Devices.{
  has, take_device, Distinct, Takes, take_device-Takes, bytes_cases, Distinct-append,
}
use nusbip.Server.Laws.{occupy-Occupies, has_added, release_lem, Distinct-added}

pub data ServerAction : Type 0 where
  adds releases : UsbDevice → ServerAction
  removes occupies : List ℕ → ServerAction
  cleans : ServerAction

-- The state after an operation.
unfoldable pub act : ServerAction → Server → Server
act (adds d) s = add_device d s
act (releases d) s = release d s
act (removes b) s = (remove_device b s).2
act (occupies b) s = (occupy b s).1
act cleans s = (cleanup s).1

unfoldable pub run_actions : List ServerAction → Server → Server
run_actions [] s = s
run_actions (a ∷ actions) s = run_actions actions (act a s)

-- A device is added only if its bus id is not available.
abbrev IsNew : ServerAction → Server → Type 0
IsNew (adds d) s = has d.bus_id s.available ≡ false
IsNew _ s = Unit

abbrev pub AllNew : List ServerAction → Server → Type 0
AllNew [] s = Unit
AllNew (a ∷ actions) s = IsNew a s × AllNew actions (act a s)

-- A bus id is available, used, both or neither.
pub record Status : Type 0 where
  pub available : Bool
  pub used : Bool

abbrev new_status : Bool → Bool → Status
new_status a u = record { available = a; used = u }

abbrev pub status : List ℕ → Server → Status
status x s = record { available = has x s.available; used = has x s.used }

-- What an operation does to one bus id.
abbrev pub change : List ℕ → ServerAction → Status → Status
change x (adds d) t = if bytes_eq x d.bus_id then record t { available = true } else t
change x (releases d) t =
    if bytes_eq x d.bus_id then record { available = true; used = false } else t
change x (removes b) t = if bytes_eq x b then record t { available = false } else t
change x (occupies b) t =
    if bytes_eq x b
    then (if t.available then record { available = false; used = true } else t)
    else t
change x cleans t = record { available = false; used = false }

abbrev pub changes : List ℕ → List ServerAction → Status → Status
changes x [] t = t
changes x (a ∷ actions) t = changes x actions (change x a t)

-- An operation changes each bus id so, and makes none available twice.
abbrev Follows : ServerAction → Server → Server → Type 0
Follows a s s' = Distinct s'.available × ((x : List ℕ) → status x s' ≡ change x a (status x s))

status_eq : (a a' u u' : Bool) → a ≡ a' → u ≡ u' → new_status a u ≡ new_status a' u'
status_eq a a' u u' e f = rw (e, f) refl

-- An operation that changes one bus id.
one_changes :
    (x b : List ℕ) (s s' : Server) (a u : Bool)
    → has x s'.available ≡ (if bytes_eq x b then a else has x s.available)
    → has x s'.used ≡ (if bytes_eq x b then u else has x s.used)
    → status x s' ≡ (if bytes_eq x b then new_status a u else status x s)
one_changes x b s s' a u e f = elim (Bool-cases (bytes_eq x b)) [
  | inl same ↦ rw same (status_eq _ _ _ _ (rw same at e) (rw same at f))
  | inr other ↦ rw other (status_eq _ _ _ _ (rw other at e) (rw other at f))
]

unchanged : (c v : Bool) → v ≡ (if c then v else v)
unchanged true v = refl
unchanged false v = refl

adds-Follows :
    (d : UsbDevice) (s : Server)
    → Distinct s.available
    → has d.bus_id s.available ≡ false
    → Follows (adds d) s (act (adds d) s)
unfolding act add_device
adds-Follows d s dis new = (
  Distinct-append s.available d new dis,
  λ x.
      one_changes x d.bus_id s (add_device d s) true (has x s.used)
        (rw new at (has_added d s.available x)) (unchanged _ _),
)

releases-Follows :
    (d : UsbDevice) (s : Server)
    → Distinct s.available
    → Follows (releases d) s (act (releases d) s)
unfolding act release
releases-Follows d s dis = (
  Distinct-added d s.available dis,
  λ x.
      let (free, taken) = release_lem d s x in
      one_changes x d.bus_id s (release d s) true false free taken,
)

missing :
    (b : List ℕ) (s : Server) (x : List ℕ)
    → has b s.available ≡ false
    → has x s.available ≡ (if bytes_eq x b then false else has x s.available)
missing b s x new = elim (bytes_cases x b) [
  | inl e ↦ rw (e, bytes_eq_refl b) new
  | inr e ↦ rw e refl
]

-- What `remove_device` does with what it has found.
abbrev removed :
    List ℕ → Server → Option (UsbDevice × List UsbDevice) → Outcome (Unit {0}) × List ℕ × Server
removed b s (some (d, rest)) = (ok tt, handle_of d, record s { available = rest })
removed b s none = (if has b s.used then err (device_in_use b) else err (device_not_found b), [], s)

removed-Follows :
    (b : List ℕ) (s : Server) (o : Option (UsbDevice × List UsbDevice))
    → Distinct s.available
    → Takes b s.available o
    → Follows (removes b) s (removed b s o).2
removed-Follows b s none dis new =
    (dis, λ x. one_changes x b s s false (has x s.used) (missing b s x new) (unchanged _ _))
removed-Follows b s (some (d, rest)) dis (same, found, others, dis') =
    (dis', λ x. one_changes x b s _ false (has x s.used) (others x) (unchanged _ _))

removes-Follows :
    (b : List ℕ) (s : Server) → Distinct s.available → Follows (removes b) s (act (removes b) s)
unfolding act remove_device
removes-Follows b s dis =
    removed-Follows b s (take_device b s.available) dis (take_device-Takes b s.available dis)

-- A change of an available bus id to a used one, or none if it is not available.
taken_status :
    (b : List ℕ) (s : Server) (x : List ℕ) (t : Status)
    → has b s.available ≡ true
    → (if bytes_eq x b then t else status x s)
      ≡ (if bytes_eq x b then (if has x s.available then t else status x s) else status x s)
taken_status b s x t found = elim (bytes_cases x b) [
  | inl e ↦ rw (e, bytes_eq_refl b, found) refl
  | inr e ↦ rw e refl
]

same_status :
    (b : List ℕ) (s : Server) (x : List ℕ) (t : Status)
    → has b s.available ≡ false
    → status x s
      ≡ (if bytes_eq x b then (if has x s.available then t else status x s) else status x s)
same_status b s x t new = elim (bytes_cases x b) [
  | inl e ↦ rw (e, bytes_eq_refl b, new) refl
  | inr e ↦ rw e refl
]

occupies-Follows :
    (b : List ℕ) (s : Server) → Distinct s.available → Follows (occupies b) s (act (occupies b) s)
unfolding act
occupies-Follows b s dis = elim (occupy-Occupies b s dis) [
  | inl (new, e, same) ↦ rw same (dis, λ x. same_status b s x (new_status false true) new)
  | inr (d, found, e, id, dis', free, taken) ↦ (
    dis',
    λ x.
        one_changes x b s (occupy b s).1 false true (free x) (taken x)
        ∙ taken_status b s x (new_status false true) found,
  )
]

act-Follows :
    (a : ServerAction) (s : Server) → Distinct s.available → IsNew a s → Follows a s (act a s)
act-Follows (adds d) s dis new = adds-Follows d s dis new
act-Follows (releases d) s dis new = releases-Follows d s dis
act-Follows (removes b) s dis new = removes-Follows b s dis
act-Follows (occupies b) s dis new = occupies-Follows b s dis
act-Follows cleans s dis new = unfold act in unfold cleanup in (tt, λ x. unfold has in refl)

-- Over any row of operations, where a device is added only if its bus id is not available, the lists
-- follow a state for each bus id: no bus id becomes available twice, and after the row each one is
-- available and used as the changes of its state say.
pub run_actions_lem :
    (actions : List ServerAction) (s : Server) (x : List ℕ)
    → Distinct s.available
    → AllNew actions s
    → Distinct (run_actions actions s).available
      × (status x (run_actions actions s) ≡ changes x actions (status x s))
unfolding run_actions
run_actions_lem [] s x dis new = (dis, refl)
run_actions_lem (a ∷ actions) s x dis (new, later) =
    let (dis', follows) = act-Follows a s dis new in
    let (dis'', same) = run_actions_lem actions (act a s) x dis' later in
    (dis'', same ∙ ap (changes x actions) (follows x))
