-- ===== src/Daemon/Connection.antt =====
-- apps/daemon/src/main.rs: `handle_request`, the one exchange that a connection's thread makes.
use litedroid.Base.{
  ℕ, ◌^◌, ◌<◌, String, ◌≡◌, refl, Outcome, true, ok, err, panic, out_of_fuel, List, [], length,
}
use litedroid.Action.{Action, pure, lift, ◌>>=◌}
use litedroid.Core.Error.{Result}
use litedroid.Host.{Host, JsonValue}
use litedroid.Ipc.{IpcRequest, IpcResponse, IpcStream, Json, receive, send, frame}
use litedroid.Ipc.Frames.{peer, send-frame, receive-frame}
use litedroid.Daemon.State.{Session}
use litedroid.Daemon.Launch.{ConfigOps}
use litedroid.Daemon.Requests.{dispatch}

abbrev pub open_stream : List ℕ → IpcStream
open_stream sent = record { incoming = []; sent = sent; writable = true }

module _ {W V C : Type 0} (host : Host W) (json : JsonValue V) (config_ops : ConfigOps W C)
    (requests : Json (IpcRequest V)) (responses : Json (IpcResponse V)) where
  -- `let _ = stream.send_response(&resp)`: an error of the write is dropped.
  unfoldable pub delivered : IpcStream → Result IpcStream → Outcome String IpcStream
  delivered stream (ok stream') = ok stream'
  delivered stream (err e) = ok stream
  delivered stream panic = panic
  delivered stream out_of_fuel = out_of_fuel

  unfoldable pub on_received :
      IpcStream → Result (IpcRequest V × IpcStream) → Action (Session W) String IpcStream
  unfolding delivered ◌>>=◌
  on_received old (ok (req, stream)) = do
    resp ← dispatch host json config_ops req
    lift (delivered stream (send responses resp stream))
  on_received old (err e) = pure old
  on_received old panic = lift panic
  on_received old out_of_fuel = lift out_of_fuel

  unfoldable pub handle_request : IpcStream → Action (Session W) String IpcStream
  unfolding on_received
  handle_request stream = on_received stream (receive requests stream)

  -- A client that sends a request over a fresh connection, to a daemon whose `dispatch` answers
  -- it, gets that answer, and the daemon's session is the one that `dispatch` left. Both messages
  -- are ones that serde turns into fewer than 2 ^ 32 bytes and back.
  pub exchange :
      (req : IpcRequest V) (resp : IpcResponse V) (asked answered : List ℕ) (s s' : Session W)
      → requests.to_vec req ≡ ok asked
      → requests.from_slice asked ≡ ok req
      → length asked < 2 ^ 32
      → responses.to_vec resp ≡ ok answered
      → responses.from_slice answered ≡ ok resp
      → length answered < 2 ^ 32
      → dispatch host json config_ops req s ≡ (ok resp, s')
      → (client daemon after : IpcStream) × (send requests req
            (record { incoming = []; sent = []; writable = true })
          ≡ ok client)
        × (handle_request (peer client) s ≡ (ok daemon, s'))
        × (receive responses (peer daemon) ≡ ok (resp, after))
  unfolding handle_request peer
  exchange req resp asked answered s s' to from short to' from' short' dispatched = (
    open_stream (frame asked),
    open_stream (frame answered),
    open_stream [],
    send-frame requests req asked [] [] to,
    rw
        (
          receive-frame requests req asked [] true from short,
          on_received,
          ◌>>=◌,
          dispatched,
          send-frame responses resp answered [] [] to',
        )
        refl,
    receive-frame responses resp answered [] true from' short',
  )
