-- ===== src/Host/Handlers/Reset.antt =====
-- The reset of a device by its handler in src/host.rs.
use nusbip.Common.{
  ℕ, List, [], ◌∷◌, Option, none, some, Bool, if_both, host, Outcome, ok, err, panic, hang,
  open_failed, device_gone, ◌≡◌, refl, arith,
}
use nusbip.Host.Info.{DeviceInfo}
use nusbip.Host.Effects.{
  Nusb, Call, Effect, ◌>>=◌, pure, lift, ask, Answer, answered, failed, or_error, reset_device,
}
use nusbip.Host.Bus.{Bus, Reply, got, refused, open_info, list_all, or_fail}
use nusbip.Host.Yields.{On, Yields, bind-Yields, pure-Yields, lift-Yields}
use nusbip.Host.Handlers.{
  is_panic, DeviceHandler, with_lock, replace, done, call_method, resets, find_vendor, reset_locked,
}

find_vendor_lem :
    (vid : ℕ) (infos : List DeviceInfo) (info : DeviceInfo)
    → find_vendor vid infos ≡ some info
    → info.vendor_id ≡ vid
unfolding find_vendor
find_vendor_lem vid [] info e = cc
find_vendor_lem vid (i ∷ infos) info e = ground (arith, find_vendor_lem vid infos info)

-- A handle that the library gave for a device of the vendor of another handle.
abbrev pub IsReopened : Bus → (old fresh : ℕ) → Type 0
IsReopened bus old fresh =
    (info : DeviceInfo) × (calls : List Call) × (info.vendor_id ≡ bus.vendor_of old)
    × (bus.opened calls info ≡ got fresh)

-- What a reset leaves behind: on success a handle that was opened anew, and otherwise that of before.
abbrev pub ResetEnds : Bus → (old : ℕ) → Outcome (List ℕ) × DeviceHandler → Type 0
ResetEnds bus old (ok r, h) = IsReopened bus old h.handle
ResetEnds bus old (o, h) = h.handle ≡ old

module _ (bus : Bus) (old : ℕ) where
  abbrev Reopens : Effect ℕ → Type 0
  Reopens = Yields Unit (IsReopened bus old)

  opened-Yields :
      (info : DeviceInfo)
      → Yields Unit
          (λ (r : Reply ℕ). (calls : List Call) × (bus.opened calls info ≡ r))
          (open_info bus info)
  opened-Yields info = record { yields = λ calls. (calls, refl) }

  reply-Reopens :
      (info : DeviceInfo) (r : Reply ℕ)
      → info.vendor_id ≡ bus.vendor_of old
      → (calls : List Call) × (bus.opened calls info ≡ r)
      → Reopens (elim r [ got fresh ↦ pure fresh | refused e ↦ lift (err open_failed) ])
  reply-Reopens info (got fresh) v (calls, e) = pure-Yields fresh (info, calls, v, e)
  reply-Reopens info (refused n) v h = lift-Yields (err open_failed) tt

  found-Reopens :
      (o : Option DeviceInfo)
      → ((info : DeviceInfo) → o ≡ some info → info.vendor_id ≡ bus.vendor_of old)
      → Reopens (elim o [
        | some info ↦
            (open_info bus info >>= λ opened. elim opened [
              | got fresh ↦ pure fresh
              | refused e ↦ lift (err open_failed)
            ])
        | none ↦ lift (err device_gone)
      ])
  found-Reopens none v = lift-Yields (err device_gone) tt
  found-Reopens (some info) v =
      bind-Yields (opened-Yields info) λ r h. reply-Reopens info r (v info refl) h

  asked-Yields :
      (nusb : Nusb) (call : Call) → Yields Unit (λ (bytes : List ℕ). Unit {0}) (ask nusb call)
  asked-Yields nusb call = record { yields = λ calls. answer (nusb.answer calls call) }
    where
      answer : (a : Answer) → On Unit (λ (bytes : List ℕ). Unit {0}) (or_error a)
      answer (answered bytes) = tt
      answer (failed e) = tt

  infos-Yields :
      (r : Reply (List DeviceInfo))
      → Yields Unit (λ (infos : List DeviceInfo). Unit {0}) (lift (or_fail r))
  infos-Yields (got infos) = lift-Yields (ok infos) tt
  infos-Yields (refused e) = lift-Yields (err (host e)) tt

  listed-Yields : Yields Unit (λ (r : Reply (List DeviceInfo)). Unit {0}) (list_all bus)
  listed-Yields = record { yields = λ calls. tt }

  locked-Reopens : (nusb : Nusb) → Reopens (reset_locked nusb bus old)
  unfolding reset_locked
  locked-Reopens nusb = bind-Yields (asked-Yields nusb (reset_device old)) λ reset h.
      bind-Yields listed-Yields λ listed h1. bind-Yields (infos-Yields listed) λ infos h2.
        found-Reopens (find_vendor (bus.vendor_of old) infos)
          (find_vendor_lem (bus.vendor_of old) infos)

  ended :
      (o : Outcome ℕ) (p : Bool) (calls : List Call)
      → On Unit (IsReopened bus old) o
      → ResetEnds bus old (done ((o, record { handle = replace o old; poisoned = p }), calls)).0
  ended (ok fresh) p calls r = r
  ended (err e) p calls r = refl
  ended panic p calls r = refl
  ended hang p calls r = refl

-- A reset that succeeds leaves the handler with a device of the same vendor, which the library has opened
-- for it; a reset that does not, for whatever reason, leaves it with the handle that it had.
pub reset-ResetEnds :
    (nusb : Nusb) (bus : Bus) (debug : Bool) (h : DeviceHandler) (calls : List Call)
    → ResetEnds bus h.handle (call_method nusb bus debug resets h calls).0
unfolding call_method with_lock
reset-ResetEnds nusb bus debug h calls =
    if_both (λ (r : (Outcome ℕ × DeviceHandler) × List Call). ResetEnds bus h.handle (done r).0)
      h.poisoned refl
      (ended bus h.handle (reset_locked nusb bus h.handle calls).0
        (is_panic (reset_locked nusb bus h.handle calls).0) (reset_locked nusb bus h.handle calls).1
        ((locked-Reopens bus h.handle nusb).yields calls))
