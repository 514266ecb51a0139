-- ===== src/Daemon/Server.antt =====
-- apps/daemon/src/main.rs: `main` after its set-up, as the steps of its threads. The main thread
-- accepts connections; each connection's thread answers one request under the lock; a signal may
-- come at any time.
use litedroid.Base.{ℕ, zero, suc, String, ◌≡◌, true, false, List, [], ◌∷◌, ◌++◌}
use litedroid.Core.Constants.{daemon_pid_path}
use litedroid.Host.{Host, JsonValue}
use litedroid.Ipc.{IpcRequest}
use litedroid.Daemon.State.{Session, init}
use litedroid.Daemon.Launch.{ConfigOps}
use litedroid.Daemon.Requests.{dispatch}

-- Where the main thread is: at the test of the loop, in `accept`, in `sleep`, or past the loop.
pub data Place : Type 0 where
  testing accepting sleeping stopped : Place

pub record Server (W V : Type 0) : Type 0 where
  pub place : Place
  pub session : Session W
  -- The requests that threads have received and not yet dispatched.
  pub waiting : List (IpcRequest V)

-- `RUNNING` is set before the loop.
abbrev pub started : {W V : Type 0} → W → Server W V
started w = record {
  place = testing;
  session = record { state = init; running = true; world = w };
  waiting = [];
}

module _ {W V C : Type 0} (host : Host W) (json : JsonValue V) (config_ops : ConfigOps W C)
    (socket_path : String) where
  unfoldable pub cleanup : Session W → Session W
  cleanup s = record s {
    world = host.remove_file daemon_pid_path (host.remove_file socket_path s.world);
  }

  -- `sigterm_handler` and `sigint_handler`.
  unfoldable pub interrupt : Session W → Session W
  interrupt s = record s { running = false }

  -- A step of the main thread. `accept` ends when a client connects, or with an error.
  pub data MainStep (s : Server W V) : Server W V → Type 0 where
    enter :
        s.place ≡ testing → s.session.running ≡ true → MainStep s (record s { place = accepting })
    leave :
        s.place ≡ testing
        → s.session.running ≡ false
        → MainStep s (record s { place = stopped; session = cleanup s.session })
    connect :
        (req : IpcRequest V)
        → s.place ≡ accepting
        → MainStep s (record s { place = sleeping; waiting = s.waiting ++ req ∷ [] })
    -- An error of `accept`, or a connection whose request could not be received.
    connect_failed : s.place ≡ accepting → MainStep s (record s { place = sleeping })
    wake : s.place ≡ sleeping → MainStep s (record s { place = testing })

  -- A step of another thread, or a signal.
  pub data OtherStep (s : Server W V) : Server W V → Type 0 where
    answer :
        (before : List (IpcRequest V)) (req : IpcRequest V) (after : List (IpcRequest V))
        → s.waiting ≡ before ++ req ∷ after
        → OtherStep s (record s {
          session = (dispatch host json config_ops req s.session).1;
          waiting = before ++ after;
        })
    signal : OtherStep s (record s { session = interrupt s.session })

  -- Any interleaving in which the main thread makes `n` steps.
  pub data Run (s : Server W V) : ℕ → Server W V → Type 0 where
    here : Run s zero s
    main : {n : ℕ} {t u : Server W V} → Run s n t → MainStep t u → Run s (suc n) u
    others : {n : ℕ} {t u : Server W V} → Run s n t → OtherStep t u → Run s n u
