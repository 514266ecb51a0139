-- ===== src/Daemon/Liveness.antt =====
-- That a shutdown request ends the main thread of the daemon.
use litedroid.Base.{ℕ, ◌+◌, ◌≤◌, String, ◌≡◌, ◌≢◌, refl, List, ◌++◌, arith}
use litedroid.Host.{Host, JsonValue}
use litedroid.Ipc.{IpcRequest}
use litedroid.Daemon.Launch.{ConfigOps}
use litedroid.Daemon.Server.{
  Server, Place, testing, accepting, sleeping, stopped, MainStep, enter, leave, connect,
  connect_failed, wake, OtherStep, answer, signal, Run, here, main, others, cleanup, interrupt,
}
use litedroid.Daemon.Shutdown.{IsStopping, dispatch-IsStopping, shutdown-IsStopping}
use litedroid.Daemon.Requests.{dispatch}
use litedroid.Daemon.Method.{method_of, shutdown}

-- The steps of the main thread that are left once `RUNNING` is cleared.
abbrev pub distance : Place → ℕ
distance accepting = 3
distance sleeping = 2
distance testing = 1
distance stopped = 0

module _ {W V C : Type 0} (host : Host W) (json : JsonValue V) (config_ops : ConfigOps W C)
    (socket_path : String) where
  MainStep-distance :
      (s t : Server W V)
      → IsStopping s.session
      → MainStep host json config_ops socket_path s t
      → IsStopping t.session × (distance t.place + 1 ≤ distance s.place)
  unfolding cleanup
  MainStep-distance s _ h (enter e r) = cc
  MainStep-distance s _ h (leave e r) = (h, rw e (omega arith))
  MainStep-distance s _ h (connect req e) = (h, rw e (omega arith))
  MainStep-distance s _ h (connect_failed e) = (h, rw e (omega arith))
  MainStep-distance s _ h (wake e) = (h, rw e (omega arith))

  OtherStep-place :
      (s t : Server W V)
      → IsStopping s.session
      → OtherStep host json config_ops socket_path s t
      → IsStopping t.session × (t.place ≡ s.place)
  unfolding interrupt
  OtherStep-place s _ h (answer before req after e) =
      ((dispatch-IsStopping host json config_ops req).at s.session h, refl)
  OtherStep-place s _ h signal = (refl, refl)

  Run-distance :
      {s : Server W V} {n : ℕ} {t : Server W V}
      → IsStopping s.session
      → Run host json config_ops socket_path s n t
      → IsStopping t.session × (distance t.place + n ≤ distance s.place)
  Run-distance h here = (h, omega arith)
  Run-distance h (main r step) =
      let (stopping, far) = Run-distance h r in
      let (stopping', near) = MainStep-distance _ _ stopping step in (stopping', omega arith)
  Run-distance h (others r step) =
      let (stopping, far) = Run-distance h r in
      let (stopping', same) = OtherStep-place _ _ stopping step in (stopping', rw same far)

  distance-stopped : (p : Place) → distance p ≤ 0 → p ≡ stopped
  distance-stopped accepting h = absurd (omega arith)
  distance-stopped sleeping h = absurd (omega arith)
  distance-stopped testing h = absurd (omega arith)
  distance-stopped stopped h = refl

  next_step :
      (t : Server W V) (p : Place)
      → t.place ≡ p
      → IsStopping t.session
      → p ≢ stopped
      → p ≢ accepting
      → (u : Server W V) × MainStep host json config_ops socket_path t u
  next_step t testing e h moves free = (_, leave e h)
  next_step t sleeping e h moves free = (_, wake e)
  next_step t accepting e h moves free = absurd (free refl)
  next_step t stopped e h moves free = absurd (moves refl)

  -- Once a thread has answered `daemon.shutdown`, the main thread makes at most as many steps as
  -- its place is away from the end (three from `accept`, two from `sleep`, one from the test),
  -- whatever the other threads do in between; after so many it has left the loop, and until then
  -- it can make a step, unless it is in `accept`, where a client has to come.
  pub shutdown_ends :
      (before : List (IpcRequest V)) (req : IpcRequest V) (after : List (IpcRequest V)) (n : ℕ)
      (s t : Server W V)
      → method_of req.method ≡ shutdown
      → Run host json config_ops socket_path
          (record s {
            session = (dispatch host json config_ops req s.session).1;
            waiting = before ++ after;
          })
          n
          t
      → (n ≤ distance s.place)
        × (n ≡ distance s.place → t.place ≡ stopped)
        × (t.place ≢ stopped
            → t.place ≢ accepting
            → (u : Server W V) × MainStep host json config_ops socket_path t u)
  shutdown_ends before req after n s t e r =
      let (stopping, near) =
        Run-distance (shutdown-IsStopping host json config_ops req s.session e) r in
      (
        omega arith,
        λ all. distance-stopped t.place (omega arith),
        next_step t t.place refl stopping,
      )
