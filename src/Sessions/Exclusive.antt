-- ===== src/Sessions/Exclusive.antt =====
-- The devices that the connections of src/lib.rs hold, against the available ones.
use nusbip.Common.{
  ℕ, List, [], ◌∷◌, Option, none, some, Bool, true, false, ◌==◌, if◌then◌else◌, bytes_eq, ==_iff,
  ◌≡◌, ◌≢◌, refl, sym, ◌∙◌, subst, Bool-cases, Option-cases, ◌⊎◌, inl, inr,
}
use mathlib.Core.Bool.{false≢true}
use nusbip.Device.{UsbDevice}
use nusbip.Server.{Server, new_simulated, add_device, remove_device, cleanup}
use nusbip.Server.Devices.{
  has, take_device, Distinct, Takes, take_device-Takes, bytes_cases, has-append, Distinct-append,
}
use nusbip.Server.Import.{give_back}
use nusbip.Sessions.{
  System, update, import_step, close_step, crash_step, Step, imports, closes, crashes, adds,
  removes, cleans, Reach, start, next,
}
use nusbip.Sessions.Moves.{Owns, Moves, Owns-some, give_back-Moves, import-Moves, crash-Moves}

-- A held device is not available, no bus id is available twice, and none is held twice.
pub record Exclusive (a : System) : Type 0 where
  pub distinct : Distinct a.server.available
  pub held_apart :
      (i : ℕ) (d : UsbDevice) → a.held i ≡ some d → has d.bus_id a.server.available ≡ false
  pub one_holder :
      (i j : ℕ) (d e : UsbDevice)
      → a.held i ≡ some d
      → a.held j ≡ some e
      → d.bus_id ≡ e.bus_id
      → i ≡ j

update_cases :
    (held : ℕ → Option UsbDevice) (i j : ℕ) (o : Option UsbDevice) (e : UsbDevice)
    → update held i o j ≡ some e
    → ((i ≡ j) × (o ≡ some e)) ⊎ ((i ≢ j) × (held j ≡ some e))
update_cases held i j o e h = elim (Bool-cases (j == i)) [
  | inl same ↦ inl (sym ((==_iff j i).0 same), rw same at h)
  | inr other ↦ inr (λ same. false≢true (sym other ∙ (==_iff j i).1 (sym same)), rw other at h)
]

-- What one connection takes is not what another holds.
module _ (a : System) (x : Exclusive a) (i j : ℕ) (e : UsbDevice) (ne : i ≢ j) where
  not_taken :
      a.held j ≡ some e
      → (y : List ℕ) → y ≡ e.bus_id
      → (has y a.server.available ≡ true) ⊎ Owns (a.held i) y
      → ⊥
  not_taken h y same (inl f) =
      false≢true
        (sym (subst (λ z. has z a.server.available ≡ false) (sym same) (x.held_apart j e h)) ∙ f)
  not_taken h y same (inr owns) =
      let (d, hd, id) = Owns-some (a.held i) y owns in ne (x.one_holder i j d e hd h (id ∙ same))

  still_apart :
      (s' : Server)
      → a.held j ≡ some e
      → ((y : List ℕ)
          → has y s'.available ≡ true
          → (has y a.server.available ≡ true) ⊎ Owns (a.held i) y)
      → has e.bus_id s'.available ≡ false
  still_apart s' h from = elim (Bool-cases (has e.bus_id s'.available)) [
    | inl f ↦ absurd (not_taken h e.bus_id refl (from e.bus_id f))
    | inr f ↦ f
  ]

-- A connection that moves by itself keeps the system exclusive.
module _ (i : ℕ) (a : System) (o' : Option UsbDevice) (s' : Server) (x : Exclusive a)
    (m : Moves (a.held i) a.server o' s') where
  moved_apart :
      (j : ℕ) (e : UsbDevice) → update a.held i o' j ≡ some e → has e.bus_id s'.available ≡ false
  moved_apart j e h = elim (update_cases a.held i j o' e h) [
    | inl (same, f) ↦ m.gone e f
    | inr (ne, f) ↦ still_apart a x i j e ne s' f m.from
  ]

  moved_one :
      (j k : ℕ) (d e : UsbDevice)
      → update a.held i o' j ≡ some d
      → update a.held i o' k ≡ some e
      → d.bus_id ≡ e.bus_id
      → j ≡ k
  moved_one j k d e hj hk id = elim (update_cases a.held i j o' d hj) [
    | inl (ij, f) ↦ elim (update_cases a.held i k o' e hk) [
      | inl (ik, g) ↦ sym ij ∙ ik
      | inr (nk, g) ↦ absurd (not_taken a x i k e nk g d.bus_id id (m.source d f))
    ]
    | inr (nj, f) ↦ elim (update_cases a.held i k o' e hk) [
      | inl (ik, g) ↦ absurd (not_taken a x i j d nj f e.bus_id (sym id) (m.source e g))
      | inr (nk, g) ↦ x.one_holder j k d e f g id
    ]
  ]

  Moves-Exclusive : Exclusive (record { server = s'; held = update a.held i o' })
  Moves-Exclusive = record {
    distinct = m.distinct;
    held_apart = moved_apart;
    one_holder = moved_one;
  }

-- An operation on the lists that makes no held bus id available.
list-Exclusive :
    (a : System) (s' : Server)
    → Exclusive a
    → Distinct s'.available
    → ((i : ℕ) (d : UsbDevice) → a.held i ≡ some d → has d.bus_id s'.available ≡ false)
    → Exclusive (record a { server = s' })
list-Exclusive a s' x dis apart = record {
  distinct = dis;
  held_apart = apart;
  one_holder = x.one_holder;
}

added_apart :
    (a : System) (d : UsbDevice) (i : ℕ) (e : UsbDevice)
    → has e.bus_id a.server.available ≡ false
    → e.bus_id ≢ d.bus_id
    → has e.bus_id (add_device d a.server).available ≡ false
unfolding add_device has
added_apart a d i e h ne = has-append e.bus_id a.server.available (d ∷ []) ∙ rw (h, other)
  where
    other : bytes_eq d.bus_id e.bus_id ≡ false
    other = elim (bytes_cases d.bus_id e.bus_id) [ inl same ↦ absurd (ne (sym same)) | inr f ↦ f ]

-- What `remove_device` leaves: the rest of the list, or the list.
abbrev rest_of : Option (UsbDevice × List UsbDevice) → List UsbDevice → List UsbDevice
rest_of none ds = ds
rest_of (some (d, rest)) ds = rest

rest_lem :
    (b : List ℕ) (ds : List UsbDevice) (o : Option (UsbDevice × List UsbDevice))
    → Distinct ds
    → Takes b ds o
    → Distinct (rest_of o ds) × ((x : List ℕ) → has x ds ≡ false → has x (rest_of o ds) ≡ false)
rest_lem b ds none dis t = (dis, λ x h. h)
rest_lem b ds (some (d, rest)) dis (_, _, others, dis') =
    (dis', λ x h. others x ∙ rw h (both (bytes_eq x b)))
  where
    both : (c : Bool) → (if c then false else false) ≡ false
    both true = refl
    both false = refl

removed_list :
    (b : List ℕ) (s : Server)
    → (remove_device b s).2.available ≡ rest_of (take_device b s.available) s.available
unfolding remove_device
removed_list b s = elim (Option-cases (take_device b s.available)) [
  | inl e ↦ rw (e, remove_device) refl
  | inr (p, e) ↦ rw (e, remove_device) refl
]

-- Whatever the connections and the program do, in any order, no two connections hold devices of one
-- bus id, no held device is offered to others, and no bus id is offered twice.
pub Step-Exclusive : {a b : System} → Step a b → Exclusive a → Exclusive b
unfolding import_step close_step crash_step cleanup
Step-Exclusive {a} (imports i busid) x =
    Moves-Exclusive i a _ _ x (import-Moves busid (a.held i) a.server x.distinct)
Step-Exclusive {a} (closes i) x =
    Moves-Exclusive i a none (give_back (a.held i) a.server) x
      (give_back-Moves (a.held i) a.server x.distinct)
Step-Exclusive {a} (crashes i) x =
    Moves-Exclusive i a none a.server x (crash-Moves (a.held i) a.server x.distinct)
Step-Exclusive {a} (adds d new apart) x =
    list-Exclusive a (add_device d a.server) x
      (unfold add_device in Distinct-append a.server.available d new x.distinct)
      (λ i e h. added_apart a d i e (x.held_apart i e h) (apart i e h))
Step-Exclusive {a} (removes b) x =
    let left =
      rest_lem b a.server.available (take_device b a.server.available) x.distinct
        (take_device-Takes b a.server.available x.distinct) in
    list-Exclusive a (remove_device b a.server).2 x (rw (removed_list b a.server) left.0)
      (λ i d h. rw (removed_list b a.server) (left.1 d.bus_id (x.held_apart i d h)))
Step-Exclusive {a} cleans x =
    list-Exclusive a (cleanup a.server).1 x tt (λ i d h. unfold has in refl)

pub Reach-Exclusive : {a b : System} → Exclusive a → Reach a b → Exclusive b
Reach-Exclusive x start = x
Reach-Exclusive x (next r s) = Step-Exclusive s (Reach-Exclusive x r)

-- From a server of simulated devices with no bus id twice and with no connection yet, no run of
-- imports, ends and panics of connections, additions, removals and cleanups leads to two connections
-- that hold devices of one bus id.
pub holders_agree :
    (devices : List UsbDevice) (b : System) (i j : ℕ) (d e : UsbDevice)
    → Distinct devices
    → Reach (record { server = new_simulated devices; held = λ k. none }) b
    → b.held i ≡ some d
    → b.held j ≡ some e
    → d.bus_id ≡ e.bus_id
    → i ≡ j
unfolding new_simulated
holders_agree devices b i j d e dis r = (Reach-Exclusive initial r).one_holder i j d e
  where
    initial : Exclusive (record { server = new_simulated devices; held = λ k. none })
    initial = record { distinct = dis; held_apart = λ k f h. cc; one_holder = λ k l f g h. cc }
