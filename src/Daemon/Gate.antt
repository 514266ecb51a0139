-- ===== src/Daemon/Gate.antt =====
-- When the daemon runs an ADB command.
use litedroid.Base.{
  ℕ, String, ◌≡◌, refl, inl, inr, ◌⊎◌, Bool, true, false, err, none, some, Option-cases, List, ◌=t◌,
  arith, Bool-cases, subst, if◌then◌else◌,
}
use litedroid.Host.{Host, Waited, alive, exited, unknown}
use litedroid.Daemon.State.{Session, look, observe, adb_state, adb_bytes, is_device}

module _ {W : Type 0} (host : Host W) where
  -- The child runs, and `adb get-state` answered "device".
  abbrev pub IsReady : Session W → ℕ → Type 0
  IsReady s c =
      ((host.try_wait c s.world).0 ≡ alive)
      × (is_device host (adb_state host s.state.adb (host.try_wait c s.world).1).0 ≡ true)

  only_device : (b : Bool) → ((if b then "running" else "booting") =t "running") ≡ true → b ≡ true
  only_device true e = refl
  only_device false e = cc

  observe-running :
      (waited : Waited) (s : Session W)
      → ((observe host waited s).state.power_state =t "running") ≡ true
      → (waited ≡ alive) × (is_device host (adb_state host s.state.adb s.world).0 ≡ true)
  unfolding observe
  observe-running alive s e =
      (refl, only_device (is_device host (adb_state host s.state.adb s.world).0) e)
  observe-running (exited true) s e = cc
  observe-running (exited false) s e = cc
  observe-running unknown s e = cc

  look-some :
      (s : Session W) (c : ℕ)
      → s.state.emulator ≡ some c
      → look host s
        ≡ observe host
            (host.try_wait c s.world).0
            (record s { world = (host.try_wait c s.world).1 })
  unfolding look
  look-some s c held = ground arith

  look-running :
      (s : Session W) (c : ℕ)
      → s.state.emulator ≡ some c
      → ((look host s).state.power_state =t "running") ≡ true
      → IsReady s c
  look-running s c held e =
      observe-running (host.try_wait c s.world).0 (record s { world = (host.try_wait c s.world).1 })
        (subst (λ (t : Session W). (t.state.power_state =t "running") ≡ true) (look-some s c held)
          e)

  look-none : (s : Session W) → s.state.emulator ≡ none → look host s ≡ s
  unfolding look
  look-none s e = rw e refl

  -- A look that finds "running" saw a ready emulator, or there is none to look at and the state said
  -- so before.
  look-cases :
      (s : Session W)
      → ((look host s).state.power_state =t "running") ≡ true
      → ((c : ℕ) × (s.state.emulator ≡ some c) × IsReady s c)
        ⊎ ((s.state.emulator ≡ none) × ((s.state.power_state =t "running") ≡ true))
  look-cases s e = elim (Option-cases s.state.emulator) [
    | inl gone ↦ inr (
      gone,
      subst (λ (t : Session W). (t.state.power_state =t "running") ≡ true) (look-none s gone) e,
    )
    | inr (c, held) ↦ inl (c, held, look-running s c held e)
  ]

  -- A request for an ADB command is refused, with the host as the daemon's look at its emulator left
  -- it, unless the daemon has seen in the same request that the emulator that it holds runs and that
  -- ADB calls it a device, or it holds no emulator and its state still says "running": then it does
  -- not look.
  pub adb_bytes-gated :
      (args : List String) (s : Session W)
      → ((c : ℕ) × (s.state.emulator ≡ some c) × IsReady s c)
        ⊎ ((s.state.emulator ≡ none) × ((s.state.power_state =t "running") ≡ true))
        ⊎ (adb_bytes host args s
            ≡ (err "Android is still booting; wait until device status is running", look host s))
  unfolding adb_bytes
  adb_bytes-gated args s = elim (Bool-cases ((look host s).state.power_state =t "running")) [
    | inl e ↦ elim (look-cases s e) [ inl ready ↦ inl ready | inr stale ↦ inr (inl stale) ]
    | inr e ↦ inr (inr (rw e refl))
  ]
