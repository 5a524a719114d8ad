-- ===== src/Export/Claims.antt =====
-- The claims of the interfaces of a device that src/lib.rs exports.
use nusbip.Common.{
  ℕ, ◌%◌, ◌^◌, List, [], ◌∷◌, some, Bool, Outcome, ok, err, panic, hang, ◌≡◌, refl, sym,
}
use nusbip.Endpoint.{UsbEndpoint, UsbInterface}
use nusbip.Host.Info.{EndpointDescriptor, InterfaceDescriptor}
use nusbip.Host.Effects.{Nusb, Call, Effect, continue, detach_kernel_driver, claim_interface}
use nusbip.Host.Bus.{Bus, Reply, got}
use nusbip.Export.{described, export_endpoints, export_interface, export_interfaces}

-- No claim of an interface is refused, and a claimed interface has a descriptor.
abbrev pub ClaimsSucceed : Bus → Type 0
ClaimsSucceed bus =
    (calls : List Call) (dev n : ℕ)
    → (handle : ℕ) × (desc : InterfaceDescriptor) × (bus.claimed calls dev n ≡ got handle)
      × (bus.interface_descriptor handle ≡ some desc)

-- The calls for the interfaces of a device: each is detached from its driver, and claimed.
abbrev pub claims_of : (device : ℕ) (interfaces : List ℕ) → List Call → List Call
claims_of dev [] calls = calls
claims_of dev (n ∷ ns) calls =
    claims_of dev ns (claim_interface dev n ∷ detach_kernel_driver dev n ∷ calls)

-- The endpoints of an interface are those of its descriptor, in order, with their packet sizes in a word.
abbrev pub SameEndpoints : List UsbEndpoint → List EndpointDescriptor → Type 0
SameEndpoints [] [] = Unit
SameEndpoints (ep ∷ eps) (desc ∷ descs) =
    (ep.address ≡ desc.address)
    × (ep.attributes ≡ desc.transfer_type)
    × (ep.max_packet_size ≡ desc.max_packet_size % 2 ^ 16)
    × (ep.interval ≡ desc.interval)
    × SameEndpoints eps descs
SameEndpoints _ _ = ⊥

-- An interface of the server is one that the library gave for the claim after these calls, with the
-- numbers and the endpoints of its descriptor.
pub record Claimed (bus : Bus) (calls : List Call) (dev n : ℕ) (i : UsbInterface) : Type 0 where
  pub given : bus.claimed calls dev n ≡ got i.handler
  pub descriptor : InterfaceDescriptor
  pub described_by : bus.interface_descriptor i.handler ≡ some descriptor
  pub same_class : i.interface_class ≡ descriptor.class
  pub same_subclass : i.interface_subclass ≡ descriptor.subclass
  pub same_protocol : i.interface_protocol ≡ descriptor.protocol
  pub same_endpoints : SameEndpoints i.endpoints descriptor.endpoints

-- The interfaces of a device, each claimed after the calls for those before it.
abbrev pub AllClaimed : Bus → List Call → ℕ → List ℕ → List UsbInterface → Type 0
AllClaimed bus calls dev [] [] = Unit
AllClaimed bus calls dev (n ∷ ns) (i ∷ is) =
    Claimed bus (detach_kernel_driver dev n ∷ calls) dev n i
    × AllClaimed bus (claim_interface dev n ∷ detach_kernel_driver dev n ∷ calls) dev ns is
AllClaimed bus calls dev _ _ = ⊥

-- What a computation returns, and the calls that were made then.
abbrev pub Gives : {A : Type 0} → (A → List Call → Type 0) → Outcome A × List Call → Type 0
Gives P (ok a, calls) = P a calls
Gives P _ = ⊥

pub continue-Gives :
    {A B : Type 0} (Q : A → List Call → Type 0) (P : B → List Call → Type 0)
    (p : Outcome A × List Call) (f : A → Effect B)
    → Gives Q p
    → ((a : A) (calls : List Call) → Q a calls → Gives P (f a calls))
    → Gives P (continue p f)
continue-Gives Q P (ok a, calls) f h step = step a calls h
continue-Gives Q P (err e, calls) f h step = absurd h
continue-Gives Q P (panic, calls) f h step = absurd h
continue-Gives Q P (hang, calls) f h step = absurd h

pub Gives-ok :
    {A : Type 0} (P : A → List Call → Type 0) (p : Outcome A × List Call)
    → Gives P p
    → (a : A) × (p.0 ≡ ok a) × P a p.1
Gives-ok P (ok a, calls) h = (a, refl, h)
Gives-ok P (err e, calls) h = absurd h
Gives-ok P (panic, calls) h = absurd h
Gives-ok P (hang, calls) h = absurd h

-- All interfaces are claimed, by no other calls.
abbrev pub AllClaimedBy : Bus → List Call → ℕ → List ℕ → List UsbInterface → List Call → Type 0
AllClaimedBy bus calls dev ns is after =
    AllClaimed bus calls dev ns is × (after ≡ claims_of dev ns calls)

export_endpoints-SameEndpoints :
    (descs : List EndpointDescriptor) → SameEndpoints (export_endpoints descs) descs
unfolding export_endpoints
export_endpoints-SameEndpoints [] = tt
export_endpoints-SameEndpoints (desc ∷ descs) =
    (refl, refl, refl, refl, export_endpoints-SameEndpoints descs)

module _ (nusb : Nusb) (bus : Bus) (debug : Bool) (claims : ClaimsSucceed bus) where
  described-Claimed :
      (calls : List Call) (dev n : ℕ) (r : Reply ℕ)
      → bus.claimed calls dev n ≡ r
      → (handle : ℕ) × (desc : InterfaceDescriptor) × (bus.claimed calls dev n ≡ got handle)
        × (bus.interface_descriptor handle ≡ some desc)
      → (i : UsbInterface) × (described bus r ≡ ok i) × Claimed bus calls dev n i
  unfolding described export_interface
  described-Claimed calls dev n r e (handle, desc, given, d) = (
    export_interface handle desc,
    rw (sym e, given, described, d) refl,
    record {
      given = given;
      descriptor = desc;
      described_by = d;
      same_class = refl;
      same_subclass = refl;
      same_protocol = refl;
      same_endpoints = export_endpoints-SameEndpoints desc.endpoints;
    },
  )

  pub interfaces-Gives :
      (dev : ℕ) (ns : List ℕ) (calls : List Call)
      → Gives (AllClaimedBy bus calls dev ns) (export_interfaces nusb bus dev ns calls)
  unfolding export_interfaces
  interfaces-Gives dev [] calls = (tt, refl)
  interfaces-Gives dev (n ∷ ns) calls =
      let (i, e, claimed) =
        described-Claimed (detach_kernel_driver dev n ∷ calls) dev n _ refl
          (claims (detach_kernel_driver dev n ∷ calls) dev n) in
      rw e (
        continue-Gives
          (AllClaimedBy bus (claim_interface dev n ∷ detach_kernel_driver dev n ∷ calls) dev ns)
          (AllClaimedBy bus calls dev (n ∷ ns)) _ _
          (interfaces-Gives dev ns (claim_interface dev n ∷ detach_kernel_driver dev n ∷ calls))
          λ is after (all, same). ((claimed, all), same))
