-- ===== src/Daemon/Ping.antt =====
-- apps/daemon/src/main.rs and crates/ipc/src/lib.rs: `IpcClient::ping` against the daemon.
use litedroid.Base.{ℕ, ◌^◌, ◌<◌, String, ◌≡◌, refl, true, false, ok, List, [], length}
use litedroid.Action.{◌>>=◌ as bind}
use litedroid.Core.Constants.{ipc_protocol_version}
use litedroid.Host.{Host, JsonValue}
use litedroid.Ipc.{IpcRequest, IpcResponse, IpcStream, Json, frame, send_request, ping}
use litedroid.Ipc.Frames.{send-frame, receive-frame}
use litedroid.Daemon.State.{Session}
use litedroid.Daemon.Launch.{ConfigOps}
use litedroid.Daemon.Method.{method_of, find_method}
use litedroid.Daemon.Requests.{dispatch, handle, make_err}
use litedroid.Daemon.Connection.{handle_request, open_stream, on_received}

module _ {W V C : Type 0} (host : Host W) (json : JsonValue V) (config_ops : ConfigOps W C)
    (requests : Json (IpcRequest V)) (responses : Json (IpcResponse V)) where
  abbrev pub question : String → V → IpcRequest V
  question uuid null = record {
    version = ipc_protocol_version;
    request_id = uuid;
    method = "ping";
    params = null;
  }

  -- A stream on which one frame arrives.
  abbrev pub arriving : List ℕ → IpcStream
  arriving payload = record { incoming = frame payload; sent = []; writable = true }

  abbrev pub refusal : String → IpcResponse V
  refusal uuid = make_err host json config_ops uuid "Unknown method: ping"

  -- A ping of a daemon that runs is told that it does not: the client sends the method `ping`, the
  -- daemon knows `daemon.ping` only, answers with an error over the connection and goes on as
  -- before, and the client gives false. The messages are ones that serde turns into fewer than
  -- 2 ^ 32 bytes and back.
  pub ping_refused :
      (uuid : String) (null : V) (asked answered : List ℕ) (s : Session W)
      → requests.to_vec (question uuid null) ≡ ok asked
      → requests.from_slice asked ≡ ok (question uuid null)
      → length asked < 2 ^ 32
      → responses.to_vec (refusal uuid) ≡ ok answered
      → responses.from_slice answered ≡ ok (refusal uuid)
      → length answered < 2 ^ 32
      → (handle_request host json config_ops requests responses (arriving asked) s
          ≡ (ok (open_stream (frame answered)), s))
        × (ping requests responses uuid null (arriving answered) ≡ false)
  unfolding handle_request ping send_request dispatch handle method_of find_method bind
  ping_refused uuid null asked answered s to from short to' from' short' = (
    rw
        (
          receive-frame requests (question uuid null) asked [] true from short,
          on_received,
          bind,
          send-frame responses (refusal uuid) answered [] [] to',
        )
        refl,
    rw
        (
          send-frame requests (question uuid null) asked (frame answered) [] to,
          receive-frame responses (refusal uuid) answered (frame asked) true from' short',
          ping,
        )
        refl,
  )
