-- ===== src/Service/Projects.antt =====
-- The tasks of `server` in src/lib.rs, against imports, ends and panics of whole connections.
use nusbip.Common.{
  ℕ, List, Option, none, some, Bool, ◌==◌, ==_iff, ◌≡◌, refl, sym, ap, subst, ◌∙◌, Bool-cases, inl,
  inr,
}
use mathlib.Core.Path.{fun_ext}
use nusbip.Device.{UsbDevice}
use nusbip.Host.Effects.{Nusb}
use nusbip.Server.{Server, new_simulated}
use nusbip.Server.Devices.{Distinct}
use nusbip.Handler.{Connection, drop_device}
use nusbip.Sessions.{
  System, update, finish_import, import_step, close_step, crash_step, Step, Reach,
}
use nusbip.Sessions
use nusbip.Sessions.Exclusive.{holders_agree}
use nusbip.Service.{
  Round, goes_on, panics, returns, round, Life, ended, serving, returned, Service, set_life,
  on_server, then_is, TaskStep, accepts, continues, leaves, dies, finishes, held_by, ServiceStep,
  task_steps, adds, removes, cleans, ServiceReach, start, next, opened,
}
use nusbip.Service.Rounds.{Local, stays, imports, closes, RoundIsLocal, round-RoundIsLocal}

-- The lists, and the devices that the tasks hold.
abbrev pub view : Service → System
view w = record { server = w.server; held = λ j. held_by (w.life j) }

-- A task that changes, changes what it alone holds.
held-set_life :
    (life : ℕ → Life) (i : ℕ) (l : Life)
    → (λ (j : ℕ). held_by (set_life i l life j))
      ≡ update (λ (j : ℕ). held_by (life j)) i (held_by l)
held-set_life life i l =
    fun_ext λ j. elim (Bool-cases (j == i)) [ inl e ↦ rw e refl | inr e ↦ rw e refl ]

-- An update by what is there.
update_same :
    (held : ℕ → Option UsbDevice) (i : ℕ) (o : Option UsbDevice)
    → held i ≡ o
    → held ≡ update held i o
update_same held i o e = fun_ext λ j. elim (Bool-cases (j == i)) [
  | inl f ↦ rw f (ap held ((==_iff j i).0 f) ∙ e)
  | inr f ↦ rw f refl
]

-- What one connection does by itself is a step of the sessions, or none.
Local-Reach :
    (a : System) (i : ℕ) (o' : Option UsbDevice) (s' : Server)
    → Local (a.held i) a.server o' s'
    → Reach a (record { server = s'; held = update a.held i o' })
unfolding import_step close_step
Local-Reach a i o' s' stays =
    subst (λ (h : ℕ → Option UsbDevice). Reach a (record a { held = h }))
      (update_same a.held i (a.held i) refl) Sessions.start
Local-Reach a i o' s' (imports busid) = Sessions.next Sessions.start (Sessions.imports i busid)
Local-Reach a i o' s' closes = Sessions.next Sessions.start (Sessions.closes i)

Reach-trans : {a b c : System} → Reach a b → Reach b c → Reach a c
Reach-trans r Sessions.start = r
Reach-trans r (Sessions.next q s) = Sessions.next (Reach-trans r q) s

module _ (nusb : Nusb) (debug : Bool) where
  became :
      (w : Service) (i : ℕ) (l : Life) (s' : Server)
      → Local (held_by (w.life i)) w.server (held_by l) s'
      → Reach (view w) (view (then_is i l s' w))
  became w i l s' move =
      subst (λ (h : ℕ → Option UsbDevice). Reach (view w) (record { server = s'; held = h }))
        (sym (held-set_life w.life i l)) (Local-Reach (view w) i (held_by l) s' move)

  -- A task that dies drops what it held.
  update_twice :
      (held : ℕ → Option UsbDevice) (i : ℕ) (o : Option UsbDevice)
      → update (update held i o) i none ≡ update held i none
  update_twice held i o =
      fun_ext λ j. elim (Bool-cases (j == i)) [ inl e ↦ rw e refl | inr e ↦ rw e refl ]

  died :
      (w : Service) (i : ℕ) (o' : Option UsbDevice) (s' : Server)
      → Local (held_by (w.life i)) w.server o' s'
      → Reach (view w) (view (then_is i ended s' w))
  unfolding crash_step
  died w i o' s' move =
      subst (λ (h : ℕ → Option UsbDevice). Reach (view w) (record { server = s'; held = h }))
        (update_twice (view w).held i o' ∙ sym (held-set_life w.life i ended))
        (Sessions.next (Local-Reach (view w) i o' s' move) (Sessions.crashes i))

  -- What a round does, by how it ends.
  pub at_round :
      (w : Service) (i : ℕ) (c : Connection) (r : Round)
      → w.life i ≡ serving c
      → round nusb debug (on_server w.server c) ≡ r
      → RoundIsLocal (on_server w.server c) r
  at_round w i c r e f =
      subst (RoundIsLocal (on_server w.server c)) f
        (round-RoundIsLocal nusb debug (on_server w.server c))

  TaskStep-Reach : {i : ℕ} {w w' : Service} → TaskStep nusb debug i w w' → Reach (view w) (view w')
  unfolding drop_device
  TaskStep-Reach {i} {w} (accepts input writes calls e) = became w i _ w.server (rw e stays)
  TaskStep-Reach {i} {w} (continues c c' e f) =
      became w i (serving c') c'.server (rw e (at_round w i c (goes_on c') e f))
  TaskStep-Reach {i} {w} (leaves c c' o e f) =
      became w i (returned c') c'.server (rw e (at_round w i c (returns o c') e f))
  TaskStep-Reach {i} {w} (dies c c' e f) =
      died w i c'.imported c'.server (rw e (at_round w i c (panics c') e f))
  TaskStep-Reach {i} {w} (finishes c e) = became w i ended _ (rw e closes)

  ServiceStep-Reach : {w w' : Service} → ServiceStep nusb debug w w' → Reach (view w) (view w')
  ServiceStep-Reach (task_steps t) = TaskStep-Reach t
  ServiceStep-Reach (adds d new apart) = Sessions.next Sessions.start (Sessions.adds d new apart)
  ServiceStep-Reach (removes b) = Sessions.next Sessions.start (Sessions.removes b)
  ServiceStep-Reach cleans = Sessions.next Sessions.start Sessions.cleans

  pub ServiceReach-Reach :
      {w w' : Service} → ServiceReach nusb debug w w' → Reach (view w) (view w')
  ServiceReach-Reach start = Sessions.start
  ServiceReach-Reach (next r s) = Reach-trans (ServiceReach-Reach r) (ServiceStep-Reach s)

-- Tasks that `server` has spawned, each of which takes its own commands from its own peer, one round at
-- a time and in any order with the others and with calls of the program, never hold two devices of one
-- bus id, if the bus ids of the simulated devices of the server are distinct.
pub tasks_apart :
    (nusb : Nusb) (debug : Bool) (devices : List UsbDevice) (w : Service) (i j : ℕ)
    (d e : UsbDevice)
    → Distinct devices
    → ServiceReach nusb debug (opened (new_simulated devices)) w
    → held_by (w.life i) ≡ some d
    → held_by (w.life j) ≡ some e
    → d.bus_id ≡ e.bus_id
    → i ≡ j
tasks_apart nusb debug devices w i j d e dis r =
    holders_agree devices (view w) i j d e dis (ServiceReach-Reach nusb debug r)
