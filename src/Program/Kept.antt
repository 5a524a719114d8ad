-- ===== src/Program/Kept.antt =====
-- The devices that src/main.rs has exported, while connections import them and give them back.
use nusbip.Common.{
  Among, ℕ, List, [], ◌∷◌, ◌++◌, Option, none, some, Bool, true, false, not, ◌||◌, if◌then◌else◌,
  if_both, bytes_eq, All, Outcome, ok, err, no_available_device, panic, hang, ◌≡◌, arith,
}
use nusbip.Device.{UsbDevice}
use nusbip.Response.{Response}
use nusbip.Server.{Server, occupy, release}
use nusbip.Server.Devices.{has, take_device, without, Distinct, Takes, take_device-Takes}
use nusbip.Server.Laws.{Distinct-added, release_lem, has_added}
use nusbip.Server.Import.{give_back, import_reply, trimmed, handle_op_req_import}
use nusbip.Server.Utf8.{is_utf8}
use nusbip.Sessions.{finish_import}
use nusbip.Service.Rounds.{Local, stays, imports, closes}

module _ (P : UsbDevice → Type 0) where
  All-append : (ds es : List UsbDevice) → All P ds → All P es → All P (ds ++ es)
  All-append [] es p q = q
  All-append (d ∷ ds) es (h, p) q = (h, All-append ds es p q)

  All-without : (b : List ℕ) (ds : List UsbDevice) → All P ds → All P (without b ds)
  unfolding without
  All-without b [] p = tt
  All-without b (d ∷ ds) (h, p) =
      if_both (All P) (bytes_eq d.bus_id b) (All-without b ds p) (h, All-without b ds p)

  pub All-added :
      (d : UsbDevice) (ds : List UsbDevice)
      → P d
      → All P ds
      → All P (if not (has d.bus_id ds) then ds ++ (d ∷ []) else ds)
  All-added d ds h p = if_both (All P) (not (has d.bus_id ds)) (All-append ds (d ∷ []) p (h, tt)) p

  -- What is taken, and what is left.
  abbrev AllTaken : Option (UsbDevice × List UsbDevice) → Type 0
  AllTaken none = Unit
  AllTaken (some (d, rest)) = P d × All P rest

  taken_later :
      (c : UsbDevice) (o : Option (UsbDevice × List UsbDevice))
      → P c
      → AllTaken o
      → AllTaken (elim o [ none ↦ none | some (e, rest) ↦ some (e, c ∷ rest) ])
  taken_later c none h t = tt
  taken_later c (some (d, rest)) h (k, q) = (k, (h, q))

  All-taken : (b : List ℕ) (ds : List UsbDevice) → All P ds → AllTaken (take_device b ds)
  unfolding take_device
  All-taken b [] p = tt
  All-taken b (d ∷ ds) (h, p) =
      if_both AllTaken (bytes_eq d.bus_id b) (h, p)
        (taken_later d (take_device b ds) h (All-taken b ds p))

-- The lists of a server that has exported the devices: nothing else is in them, and each bus id of
-- these is in one of them.
pub record Keeps (devices : List UsbDevice) (s : Server) : Type 0 where
  pub distinct : Distinct s.available
  pub available_from : All (λ (d : UsbDevice). Among d devices) s.available
  pub used_from : All (λ (d : UsbDevice). Among d devices) s.used
  pub all_there : (b : List ℕ) → has b devices ≡ true → (has b s.available || has b s.used) ≡ true

-- A task holds no device, or one of these.
abbrev pub HeldFrom : List UsbDevice → Option UsbDevice → Type 0
HeldFrom devices none = Unit
HeldFrom devices (some d) = Among d devices

module _ (devices : List UsbDevice) where
  still_there :
      (c a u : Bool)
      → (a || u) ≡ true
      → ((if c then true else a) || (if c then false else u)) ≡ true
  still_there c a u h = ground arith

  release-Keeps :
      (d : UsbDevice) (s : Server) → Among d devices → Keeps devices s → Keeps devices (release d s)
  unfolding release
  release-Keeps d s h k = record {
    distinct = Distinct-added d s.available k.distinct;
    available_from = All-added _ d s.available h k.available_from;
    used_from = All-without _ d.bus_id s.used k.used_from;
    all_there = λ b there.
        let (a, u) = release_lem d s b in
        rw (a, u)
          (still_there (bytes_eq b d.bus_id) (has b s.available) (has b s.used)
            (k.all_there b there));
  }

  give_back-Keeps :
      (o : Option UsbDevice) (s : Server)
      → HeldFrom devices o
      → Keeps devices s
      → Keeps devices (give_back o s)
  unfolding give_back
  give_back-Keeps none s h k = k
  give_back-Keeps (some d) s h k = release-Keeps d s h k

  now_used :
      (c a u : Bool)
      → (a || u) ≡ true
      → ((if c then false else a) || (if c then true else u)) ≡ true
  now_used c a u h = ground arith

  -- `occupy`, by what it finds.
  abbrev OccupyKeeps : Outcome UsbDevice × Server → Type 0
  OccupyKeeps (r, s) = Keeps devices s × HeldFrom devices (import_reply r).1

  occupied-Keeps :
      (b : List ℕ) (s : Server) (d : UsbDevice) (rest : List UsbDevice)
      → Keeps devices s
      → Takes b s.available (some (d, rest))
      → Among d devices × All (λ (x : UsbDevice). Among x devices) rest
      → OccupyKeeps (
        ok d,
        record {
          available = rest;
          used = if not (has d.bus_id s.used) then s.used ++ (d ∷ []) else s.used;
        },
      )
  unfolding import_reply
  occupied-Keeps b s d rest k (same, found, others, dis) (h, all) = (
    record {
      distinct = dis;
      available_from = all;
      used_from = All-added _ d s.used h k.used_from;
      all_there = λ x there.
          rw (others x, has_added d s.used x, same)
            (now_used (bytes_eq x b) (has x s.available) (has x s.used) (k.all_there x there));
    },
    h,
  )

  occupy-Keeps : (b : List ℕ) (s : Server) → Keeps devices s → OccupyKeeps (occupy b s)
  unfolding occupy
  occupy-Keeps b s k =
      by_taken (take_device b s.available) (take_device-Takes b s.available k.distinct)
        (All-taken (λ (x : UsbDevice). Among x devices) b s.available k.available_from)
    where
      by_taken :
          (o : Option (UsbDevice × List UsbDevice))
          → Takes b s.available o
          → AllTaken (λ (x : UsbDevice). Among x devices) o
          → OccupyKeeps (elim o as (λ w. Outcome UsbDevice × Server) [
            | none ↦ (err no_available_device, s)
            | some (d, rest) ↦ (
              ok d,
              record {
                available = rest;
                used = if not (has d.bus_id s.used) then s.used ++ (d ∷ []) else s.used;
              },
            )
          ])
      by_taken none t a = (k, unfold import_reply in tt)
      by_taken (some (d, rest)) t a = occupied-Keeps b s d rest k t a

  -- What a connection does by itself, with the device that it has after that.
  abbrev FinishKeeps : Outcome Response × Option UsbDevice × Server → Type 0
  FinishKeeps r = Keeps devices (finish_import r).1 × HeldFrom devices (finish_import r).0

  finished-Keeps :
      (p : Outcome UsbDevice × Server)
      → OccupyKeeps p
      → FinishKeeps ((import_reply p.0).0, (import_reply p.0).1, p.1)
  unfolding import_reply finish_import
  finished-Keeps (ok d, s) (k, h) = (k, h)
  finished-Keeps (err e, s) (k, h) = (k, h)
  finished-Keeps (panic, s) (k, h) = (k, h)
  finished-Keeps (hang, s) (k, h) = (k, h)

  import-Keeps :
      (busid : List ℕ) (o : Option UsbDevice) (s : Server)
      → HeldFrom devices o
      → Keeps devices s
      → FinishKeeps (handle_op_req_import busid o s)
  unfolding handle_op_req_import finish_import
  import-Keeps busid o s h k =
      if_both FinishKeeps (is_utf8 (trimmed busid))
        (finished-Keeps (occupy (trimmed busid) (give_back o s))
          (occupy-Keeps (trimmed busid) (give_back o s) (give_back-Keeps o s h k)))
        (give_back-Keeps o s h k, tt)

  pub Local-Keeps :
      {o : Option UsbDevice} {s : Server} {o' : Option UsbDevice} {s' : Server}
      → Local o s o' s'
      → HeldFrom devices o
      → Keeps devices s
      → Keeps devices s' × HeldFrom devices o'
  Local-Keeps stays h k = (k, h)
  Local-Keeps {o} {s} (imports busid) h k = import-Keeps busid o s h k
  Local-Keeps {o} {s} closes h k = (give_back-Keeps o s h k, tt)
