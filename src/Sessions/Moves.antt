-- ===== src/Sessions/Moves.antt =====
-- What one connection of src/lib.rs may do to its device and to the available ones.
use nusbip.Common.{
  ℕ, List, [], Option, none, some, true, false, bytes_eq, bytes_eq_refl, Outcome, ok, err, panic,
  hang, ◌≡◌, refl, sym, ap, ◌∙◌, Bool-cases, ◌⊎◌, inl, inr,
}
use mathlib.Core.Bool.{false≢true}
use nusbip.Device.{UsbDevice}
use nusbip.Server.{Server, occupy, release}
use nusbip.Server.Devices.{has, Distinct, bytes_cases}
use nusbip.Server.Laws.{Distinct-added, release_lem, Occupies, occupy-Occupies}
use nusbip.Server.Import.{give_back, import_reply, trimmed, handle_op_req_import}
use nusbip.Server.Utf8.{is_utf8}
use nusbip.Sessions.{finish_import}

abbrev pub Owns : Option UsbDevice → List ℕ → Type 0
Owns none x = ⊥
Owns (some d) x = d.bus_id ≡ x

-- What one connection may do to its device and to the available ones.
pub record Moves (o : Option UsbDevice) (s : Server) (o' : Option UsbDevice) (s' : Server)
    : Type 0 where
  pub distinct : Distinct s'.available
  pub from : (x : List ℕ) → has x s'.available ≡ true → (has x s.available ≡ true) ⊎ Owns o x
  pub gone : (d : UsbDevice) → o' ≡ some d → has d.bus_id s'.available ≡ false
  pub source : (d : UsbDevice) → o' ≡ some d → (has d.bus_id s.available ≡ true) ⊎ Owns o d.bus_id

give_back-Distinct :
    (o : Option UsbDevice) (s : Server) → Distinct s.available → Distinct (give_back o s).available
unfolding give_back release
give_back-Distinct none s dis = dis
give_back-Distinct (some d) s dis = Distinct-added d s.available dis

give_back_from :
    (o : Option UsbDevice) (s : Server) (x : List ℕ)
    → has x (give_back o s).available ≡ true
    → (has x s.available ≡ true) ⊎ Owns o x
unfolding give_back
give_back_from none s x h = inl h
give_back_from (some d) s x h = elim (bytes_cases x d.bus_id) [
  | inl e ↦ inr (sym e)
  | inr e ↦ inl (sym (rw e at (release_lem d s x).0) ∙ h)
]

pub give_back-Moves :
    (o : Option UsbDevice) (s : Server) → Distinct s.available → Moves o s none (give_back o s)
give_back-Moves o s dis = record {
  distinct = give_back-Distinct o s dis;
  from = give_back_from o s;
  gone = λ d e. cc;
  source = λ d e. cc;
}

abbrev id_or_nil : Option UsbDevice → List ℕ
id_or_nil none = []
id_or_nil (some d) = d.bus_id

same_id : (d c : UsbDevice) → some d ≡ some c → d.bus_id ≡ c.bus_id
same_id d c e = ap id_or_nil e

-- Occupying on behalf of a connection that holds nothing.
occupied-Moves :
    (b : List ℕ) (s : Server) (p : Outcome UsbDevice × Server)
    → Distinct s.available
    → Occupies b s p
    → Moves none s (import_reply p.0).1 p.1
unfolding import_reply
occupied-Moves b s p dis (inl (h, r, same)) =
    rw (r, same)
      (record { distinct = dis; from = λ x h. inl h; gone = λ d e. cc; source = λ d e. cc })
occupied-Moves b s p dis (inr (d, found, r, id, dis', avail, _)) = rw r (record {
  distinct = dis';
  from = λ x h. elim (Bool-cases (bytes_eq x b)) [
    | inl e ↦ absurd (false≢true (sym (rw e at (avail x)) ∙ h))
    | inr e ↦ inl (sym (rw e at (avail x)) ∙ h)
  ];
  gone = λ c e.
      let same : c.bus_id ≡ b = sym (same_id d c e) ∙ id in
      rw same (avail b ∙ rw (bytes_eq_refl b));
  source = λ c e. let same : c.bus_id ≡ b = sym (same_id d c e) ∙ id in inl (rw same found);
})

-- Giving back, and then occupying.
then-Moves :
    {o o' : Option UsbDevice} {s s' : Server} (t : Server)
    → Moves o s none t
    → Moves none t o' s'
    → Moves o s o' s'
then-Moves {o} {o'} {s} {s'} t m n = record {
  distinct = n.distinct;
  from = λ x h. back x (n.from x h);
  gone = n.gone;
  source = λ d e. back d.bus_id (n.source d e);
}
  where
    back : (x : List ℕ) → (has x t.available ≡ true) ⊎ ⊥ → (has x s.available ≡ true) ⊎ Owns o x
    back x (inl h) = m.from x h
    back x (inr h) = absurd h

-- An import that is not refused for its bus id has a reply, and no error to handle.
finish_import-reply :
    (p : Outcome UsbDevice) (s : Server)
    → finish_import ((import_reply p).0, (import_reply p).1, s) ≡ ((import_reply p).1, s)
unfolding finish_import import_reply
finish_import-reply (ok d) s = refl
finish_import-reply (err e) s = refl
finish_import-reply panic s = refl
finish_import-reply hang s = refl

pub import-Moves :
    (busid : List ℕ) (o : Option UsbDevice) (s : Server)
    → Distinct s.available
    → let r = finish_import (handle_op_req_import busid o s) in Moves o s r.0 r.1
import-Moves busid o s dis = elim (Bool-cases (is_utf8 (trimmed busid))) [
  | inl e ↦ rw (accepted e) granted
  | inr e ↦ rw (refused e) (give_back-Moves o s dis)
]
  where
    b : List ℕ
    b = trimmed busid

    t : Server
    t = give_back o s

    r : Outcome UsbDevice × Server
    r = occupy b t

    accepted :
        is_utf8 b ≡ true
        → finish_import (handle_op_req_import busid o s) ≡ ((import_reply r.0).1, r.1)
    accepted e = unfold handle_op_req_import in rw e (finish_import-reply r.0 r.1)

    refused :
        is_utf8 b ≡ false → finish_import (handle_op_req_import busid o s) ≡ (none, give_back o s)
    refused e = unfold handle_op_req_import finish_import in rw e

    granted : Moves o s (import_reply r.0).1 r.1
    granted = then-Moves t (give_back-Moves o s dis) (
        occupied-Moves b t r (give_back-Distinct o s dis)
          (occupy-Occupies b t (give_back-Distinct o s dis)))

pub Owns-some :
    (o : Option UsbDevice) (x : List ℕ) → Owns o x → (d : UsbDevice) × (o ≡ some d) × (d.bus_id ≡ x)
Owns-some none x h = absurd h
Owns-some (some d) x h = (d, refl, h)

pub crash-Moves : (o : Option UsbDevice) (s : Server) → Distinct s.available → Moves o s none s
crash-Moves o s dis = record {
  distinct = dis;
  from = λ x h. inl h;
  gone = λ d e. cc;
  source = λ d e. cc;
}
