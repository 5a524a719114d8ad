-- ===== src/Host/Yields.antt =====
-- What a computation that calls the USB library yields, after any calls made before.
use nusbip.Common.{List, Outcome, ok, err, panic, hang, ◌≡◌, refl}
use nusbip.Host.Effects.{Call, Effect, ◌>>=◌, continue, pure, lift}

-- A value has the property `P`; any other outcome needs `F`, which is `⊥` where there is to be a value.
abbrev pub On : {A : Type 0} → Type 0 → (A → Type 0) → Outcome A → Type 0
On F P (ok a) = P a
On F P _ = F

pub record Yields {A : Type 0} (F : Type 0) (P : A → Type 0) (m : Effect A) : Type 0 where
  pub yields : (calls : List Call) → On F P (m calls).0

continue-On :
    {A B : Type 0} (F : Type 0) (Q : A → Type 0) (P : B → Type 0) (p : Outcome A × List Call)
    (f : A → Effect B)
    → On F Q p.0
    → ((a : A) → Q a → Yields F P (f a))
    → On F P (continue p f).0
continue-On F Q P (ok a, calls) f h step = (step a h).yields calls
continue-On F Q P (err e, calls) f h step = h
continue-On F Q P (panic, calls) f h step = h
continue-On F Q P (hang, calls) f h step = h

pub bind-Yields :
    {A B : Type 0} {F : Type 0} {Q : A → Type 0} {P : B → Type 0} {m : Effect A} {f : A → Effect B}
    → Yields F Q m
    → ((a : A) → Q a → Yields F P (f a))
    → Yields F P (m >>= f)
bind-Yields {F} {Q} {P} {m} {f} h step = record {
  yields = λ calls. continue-On F Q P (m calls) f (h.yields calls) step;
}

pub pure-Yields : {A : Type 0} {F : Type 0} {P : A → Type 0} (a : A) → P a → Yields F P (pure a)
pure-Yields a h = record { yields = λ calls. h }

pub lift-Yields :
    {A : Type 0} {F : Type 0} {P : A → Type 0} (o : Outcome A) → On F P o → Yields F P (lift o)
lift-Yields o h = record { yields = λ calls. h }

On-ok : {A : Type 0} {P : A → Type 0} (o : Outcome A) → On ⊥ P o → (a : A) × (o ≡ ok a) × P a
On-ok (ok a) h = (a, refl, h)
On-ok (err e) h = absurd h
On-ok panic h = absurd h
On-ok hang h = absurd h

-- A computation that yields a value returns it.
pub Yields-ok :
    {A : Type 0} {P : A → Type 0} {m : Effect A}
    → Yields ⊥ P m
    → (calls : List Call) → (a : A) × ((m calls).0 ≡ ok a) × P a
Yields-ok {m} h calls = On-ok (m calls).0 (h.yields calls)
