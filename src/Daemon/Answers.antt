-- ===== src/Daemon/Answers.antt =====
-- What requests answer, and what they leave in the daemon's state.
use litedroid.Base.{
  ℕ, String, ◌≡◌, refl, subst, Bool, false, ok, err, Option, ap, ◌∙◌, none, some, [], ◌∷◌, arith,
}
use litedroid.Action.{◌>>=◌}
use litedroid.Host.{Host, JsonValue, alive, exited}
use litedroid.Ipc.{IpcRequest}
use litedroid.Daemon.State.{DaemonState, Session, look, init}
use litedroid.Daemon.Launch.{ConfigOps, launch_device, launched}
use litedroid.Daemon.Launching.{IsLaunch, Launches, launch_device-Launches}
use litedroid.Daemon.Method.{stop, device_status}
use litedroid.Daemon.Replies.{start_after, start_device, report_status, stop_device, device_json}
use litedroid.Daemon.Requests.{handle}

module _ {W V C : Type 0} (host : Host W) (json : JsonValue V) (config_ops : ConfigOps W C) where
  -- The answer to `device.status`.
  abbrev pub status_json : String → Option String → V
  status_json power device = json.object (
      ("power_state", json.string power) ∷ ("device", device_json host json config_ops device) ∷ [])

  -- With no emulator, `device.status` answers what the state says and changes nothing.
  report_status_idle :
      (s : Session W)
      → s.state.emulator ≡ none
      → report_status host json config_ops s
        ≡ (ok (status_json s.state.power_state s.state.active_device), s)
  unfolding report_status look
  report_status_idle s e = rw (e, report_status) refl

  stop_device-init : (s : Session W) → (stop_device host json config_ops s).state ≡ init
  unfolding stop_device
  stop_device-init s = ground arith

  -- Whatever the state, `device.stop` then `device.status` answers that the device is off and that
  -- there is none, and the status asks nothing of the host.
  pub status_after_stop :
      (s : Session W) (req req' : IpcRequest V)
      → let stopped = (handle host json config_ops stop req s).1 in
        handle host json config_ops device_status req' stopped
        ≡ (ok (status_json "off" none), stopped)
  unfolding handle ◌>>=◌
  status_after_stop s req req' =
      let stopped = stop_device host json config_ops s in
      let off = stop_device-init s in
      report_status_idle stopped (ap (λ (d : DaemonState). d.emulator) off)
      ∙ ap (λ (d : DaemonState). (ok (status_json d.power_state d.active_device), stopped)) off

  -- `device.start` with no emulator, or with one that has ended, launches; the old emulator is
  -- forgotten also when the launch fails.
  start_device-Launches :
      (name : String) (s : Session W) (c : ℕ) (b : Bool)
      → s.state.emulator ≡ some c
      → (host.try_wait c s.world).0 ≡ exited b
      → Launches host json config_ops name false
          (record s {
            state = record s.state { emulator = none };
            world = (host.try_wait c s.world).1;
          })
          (start_device host json config_ops name s)
  unfolding start_device start_after
  start_device-Launches name s c b e ended =
      rw (e, start_device, ended, start_after)
        (launch_device-Launches host json config_ops name false (record s {
          state = record s.state { emulator = none };
          world = (host.try_wait c s.world).1;
        }))

  start_refused :
      (name : String) (s : Session W) (c : ℕ)
      → s.state.emulator ≡ some c
      → (host.try_wait c s.world).0 ≡ alive
      → let (answer, after) = start_device host json config_ops name s in
        (answer ≡ err "Android emulator is already running")
        × (after.state ≡ s.state)
        × (after.running ≡ s.running)
  unfolding start_device start_after
  start_refused name s c e runs = ground arith

  -- A second `device.start`, for whatever device, is refused and changes no state, if the first
  -- one answered and its child has not ended.
  pub start_twice :
      (name name' : String) (s s' : Session W) (v : V)
      → launch_device host config_ops json name false s ≡ (ok v, s')
      → ((c : ℕ) → s'.state.emulator ≡ some c → (host.try_wait c s'.world).0 ≡ alive)
      → let (answer, after) = start_device host json config_ops name' s' in
        (answer ≡ err "Android emulator is already running")
        × (after.state ≡ s'.state)
        × (after.running ≡ s'.running)
  start_twice name name' s s' v launched runs =
      let l : IsLaunch host json config_ops name false s v s' =
        subst (Launches host json config_ops name false s) launched
          (launch_device-Launches host json config_ops name false s) in
      refused l.child (ap (λ (d : DaemonState). d.emulator) l.kept)
    where
      refused :
          (c : ℕ)
          → s'.state.emulator ≡ some c
          → let (answer, after) = start_device host json config_ops name' s' in
            (answer ≡ err "Android emulator is already running")
            × (after.state ≡ s'.state)
            × (after.running ≡ s'.running)
      refused c e = start_refused name' s' c e (runs c e)

  -- When the emulator has ended and `device.start` fails, the daemon forgets the emulator but not
  -- what it last saw: `device.status` goes on to answer the old power state and device, "running"
  -- if that was the last one, and asks nothing of the host.
  pub failed_start_stale :
      (name : String) (s s' : Session W) (c : ℕ) (b : Bool) (e : String) (req : IpcRequest V)
      → s.state.emulator ≡ some c
      → (host.try_wait c s.world).0 ≡ exited b
      → start_device host json config_ops name s ≡ (err e, s')
      → (s'.state.emulator ≡ none)
        × (handle host json config_ops device_status req s'
            ≡ (ok (status_json s.state.power_state s.state.active_device), s'))
  unfolding handle
  failed_start_stale name s s' c b e req held ended failed =
      let kept : s'.state ≡ record s.state { emulator = none } =
        subst (Launches host json config_ops name false _) failed
          (start_device-Launches name s c b held ended) in
      let gone : s'.state.emulator ≡ none = ap (λ (d : DaemonState). d.emulator) kept in
      (
        gone,
        report_status_idle s' gone
            ∙ ap (λ (d : DaemonState). (ok (status_json d.power_state d.active_device), s')) kept,
      )
