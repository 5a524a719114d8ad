-- ===== src/Server/Keeps.antt =====
-- What giving back and importing in src/lib.rs do to the available devices.
use nusbip.Common.{
  ℕ, List, Option, none, some, true, false, if◌then◌else◌, if_both, bytes_eq, bytes_eq_refl,
  Outcome, ok, err, panic, hang, inl, inr, ◌≡◌, refl, sym, ◌∙◌, subst,
}
use nusbip.Response.{Response}
use nusbip.Device.{UsbDevice}
use nusbip.Server.{Server, occupy, release}
use nusbip.Server.Devices.{has, Distinct, bytes_cases}
use nusbip.Server.Laws.{Distinct-added, release_lem, Occupies, occupy-Occupies}
use nusbip.Server.Utf8.{is_utf8}
use nusbip.Server.Import.{import_reply, trimmed, give_back, handle_op_req_import}

-- The available devices are those of a list, but for the imported one.
abbrev pub Keeps : List UsbDevice → Option UsbDevice → Server → Type 0
Keeps A none s = Distinct s.available × ((x : List ℕ) → has x s.available ≡ has x A)
Keeps A (some d) s =
    Distinct s.available
    × (has d.bus_id A ≡ true)
    × ((x : List ℕ) → has x s.available ≡ (if bytes_eq x d.bus_id then false else has x A))

pub give_back-Keeps :
    (A : List UsbDevice) (o : Option UsbDevice) (s : Server)
    → Keeps A o s
    → Keeps A none (give_back o s)
unfolding give_back release
give_back-Keeps A none s k = k
give_back-Keeps A (some d) s (dis, mine, others) =
    (Distinct-added d s.available dis, λ x. (release_lem d s x).0 ∙ back x)
  where
    back : (x : List ℕ) → (if bytes_eq x d.bus_id then true else has x s.available) ≡ has x A
    back x = elim (bytes_cases x d.bus_id) [
      | inl e ↦ rw (e, bytes_eq_refl) (sym mine)
      | inr f ↦ rw f (others x ∙ rw f refl)
    ]

occupied-Keeps :
    (A : List UsbDevice) (b : List ℕ) (s s' : Server) (r : Outcome UsbDevice)
    → Keeps A none s
    → Occupies b s (r, s')
    → Keeps A (import_reply r).1 s'
unfolding import_reply
occupied-Keeps A b s s' (ok d) k (inl (f, e, q)) = absurd cc
occupied-Keeps A b s s' (ok d) (dis, all) (inr (d', found, e, same, dis', avail, used)) =
    let mine : d.bus_id ≡ b = cc in
    (dis', rw mine (sym (all b) ∙ found), λ x. avail x ∙ rw (mine, all x) refl)
occupied-Keeps A b s s' (err e) k (inl (f, q, same)) = subst (Keeps A none) (sym same) k
occupied-Keeps A b s s' panic k (inl (f, q, same)) = subst (Keeps A none) (sym same) k
occupied-Keeps A b s s' hang k (inl (f, q, same)) = subst (Keeps A none) (sym same) k
occupied-Keeps A b s s' (err e) k (inr (d', found, q, m1, m2, m3, m4)) = absurd cc
occupied-Keeps A b s s' panic k (inr (d', found, q, m1, m2, m3, m4)) = absurd cc
occupied-Keeps A b s s' hang k (inr (d', found, q, m1, m2, m3, m4)) = absurd cc

pub import-Keeps :
    (A : List UsbDevice) (b : List ℕ) (o : Option UsbDevice) (s : Server)
    → Keeps A o s
    → Keeps A (handle_op_req_import b o s).1 (handle_op_req_import b o s).2
unfolding handle_op_req_import
import-Keeps A b o s k =
    if_both (λ (r : Outcome Response × Option UsbDevice × Server). Keeps A r.1 r.2)
      (is_utf8 (trimmed b))
      (occupied-Keeps A (trimmed b) (give_back o s) (occupy (trimmed b) (give_back o s)).1
        (occupy (trimmed b) (give_back o s)).0 (give_back-Keeps A o s k)
        (occupy-Occupies (trimmed b) (give_back o s) (give_back-Keeps A o s k).0))
      k
