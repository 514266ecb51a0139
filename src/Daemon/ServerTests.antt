-- ===== src/Daemon/ServerTests.antt =====
-- An exchange with a client and two shutdowns, on the small machine.
use litedroid.Base.{◌≡◌, ◌≢◌, ◌≤◌, refl, true, false, ok, [], ◌∷◌, some, none, arith}
use litedroid.Ipc.{IpcRequest, IpcResponse, IpcStream, Json, send, receive, frame, ping}
use litedroid.Ipc.Frames.{peer}
use litedroid.Daemon.State.{Session}
use litedroid.Daemon.Method.{method_of}
use litedroid.Daemon.Requests.{dispatch}
use litedroid.Daemon.Connection.{handle_request, open_stream, exchange}
use litedroid.Daemon.Ping.{ping_refused, question, refusal, arriving}
use litedroid.Daemon.Server.{
  Server, Place, cleanup, accepting, stopped, MainStep, wake, leave, Run, here, main,
}
use litedroid.Daemon.Liveness.{distance, shutdown_ends}
use litedroid.Daemon.Machine.{Machine, machine, Doc, doc, config, fresh, ask, busy}

abbrev pinged : IpcResponse Doc
pinged = record {
  version = 1;
  request_id = "r";
  success = true;
  result = some (doc.object (("pong", Doc.boolean true) ∷ ("pid", Doc.number 1) ∷ []));
  error = none;
}

-- Stand-ins for serde that know one message each.
abbrev requests : Json (IpcRequest Doc)
requests = record { to_vec = λ m. ok (1 ∷ []); from_slice = λ bytes. ok (ask "daemon.ping") }

abbrev responses : Json (IpcResponse Doc)
responses = record { to_vec = λ m. ok (2 ∷ []); from_slice = λ bytes. ok pinged }

ping_answers : dispatch machine doc config (ask "daemon.ping") fresh ≡ (ok pinged, fresh)
unfolding dispatch method_of
ping_answers = refl

exchange_example :
    (client daemon after : IpcStream) × (send requests
        (ask "daemon.ping")
        (record { incoming = []; sent = []; writable = true })
      ≡ ok client)
    × (handle_request machine doc config requests responses (peer client) fresh
        ≡ (ok daemon, fresh))
    × (receive responses (peer daemon) ≡ ok (pinged, after))
exchange_example =
    exchange machine doc config requests responses (ask "daemon.ping") pinged (1 ∷ []) (2 ∷ [])
      fresh fresh refl refl (omega arith) refl refl (omega arith) ping_answers

-- The main thread sleeps, and a thread has received the request to shut down.
abbrev closing : Server Machine Doc
closing = record { place = Place.sleeping; session = busy; waiting = ask "daemon.shutdown" ∷ [] }

abbrev shut : Session Machine
shut = (dispatch machine doc config (ask "daemon.shutdown") busy).1

shut_stops : shut.running ≡ false
unfolding dispatch method_of
shut_stops = refl

abbrev ended : Server Machine Doc
ended = record { place = stopped; session = cleanup machine doc config "sock" shut; waiting = [] }

closing-Run :
    Run machine doc config "sock" (record closing { session = shut; waiting = [] }) 2 ended
closing-Run = main (main here (wake refl)) (leave refl shut_stops)

shutdown_ends_example :
    (2 ≤ distance Place.sleeping)
    × (2 ≡ distance Place.sleeping → ended.place ≡ stopped)
    × (ended.place ≢ stopped
        → ended.place ≢ accepting
        → (u : Server Machine Doc) × MainStep machine doc config "sock" ended u)
unfolding method_of
shutdown_ends_example =
    shutdown_ends machine doc config "sock" [] (ask "daemon.shutdown") [] 2 closing ended refl
      closing-Run

-- Stand-ins for serde that know the question of a ping and its answer.
abbrev questions : Json (IpcRequest Doc)
questions = record {
  to_vec = λ m. ok (1 ∷ []);
  from_slice = λ bytes. ok (question machine doc config requests responses "q" Doc.null);
}

abbrev refusals : Json (IpcResponse Doc)
refusals = record {
  to_vec = λ m. ok (2 ∷ []);
  from_slice = λ bytes. ok (refusal machine doc config requests responses "q");
}

ping_refused_example :
    (handle_request machine doc config questions refusals
        (arriving machine doc config questions refusals (1 ∷ []))
        busy
      ≡ (ok (open_stream (frame (2 ∷ []))), busy))
    × (ping questions refusals "q" Doc.null
          (arriving machine doc config questions refusals (2 ∷ []))
        ≡ false)
ping_refused_example =
    ping_refused machine doc config questions refusals "q" Doc.null (1 ∷ []) (2 ∷ []) busy refl refl
      (omega arith) refl refl (omega arith)
