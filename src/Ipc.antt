-- ===== src/Ipc.antt =====
-- crates/ipc/src/lib.rs: the messages and the framed stream. The socket is what the peer has sent
-- and will send, then end of file, and what was written to it; serde_json is a parameter.
pub mod Frames
pub mod Sockets
mod Tests
use litedroid.Base.{
  ℕ, zero, suc, ◌+◌, ◌*◌, ◌/◌, ◌%◌, ◌^◌, String, Bool, true, false, Option, List, [], ◌∷◌, ◌++◌,
  length, take, drop, ok, err, panic, out_of_fuel, Outcome, ◌>>=◌, ltb, if◌then◌else◌, wrap32,
  from_be_bytes,
}
use litedroid.Core.Constants.{ipc_protocol_version}
use litedroid.Core.Error.{Result, ipc_protocol_error, os_error}

pub record IpcRequest (V : Type 0) : Type 0 where
  pub version : ℕ
  pub request_id : String
  pub method : String
  pub params : V

pub record IpcResponse (V : Type 0) : Type 0 where
  pub version : ℕ
  pub request_id : String
  pub success : Bool
  pub result : Option V
  pub error : Option String

pub record IpcEvent (V : Type 0) : Type 0 where
  pub event_type : String
  pub device_id : String
  pub contents : V

pub record IpcStream : Type 0 where
  pub incoming : List ℕ
  pub sent : List ℕ
  pub writable : Bool

-- `to_be_bytes` of a `u32`.
unfoldable pub be_bytes : ℕ → List ℕ
be_bytes v = v / 2 ^ 24 % 256 ∷ v / 2 ^ 16 % 256 ∷ v / 2 ^ 8 % 256 ∷ v % 256 ∷ []

unfoldable pub frame : List ℕ → List ℕ
frame payload = be_bytes (wrap32 (length payload)) ++ payload

unfoldable pub write_frame : List ℕ → IpcStream → Result IpcStream
unfolding frame
write_frame payload s =
    if s.writable
    then ok (record s { sent = s.sent ++ frame payload })
    else err (os_error "write failed")

-- `read_exact` of `n` bytes.
unfoldable pub read_exact : ℕ → IpcStream → Result (List ℕ × IpcStream)
read_exact n s =
    if ltb (length s.incoming) n
    then err (os_error "failed to fill whole buffer")
    else ok (take n s.incoming, record s { incoming = drop n s.incoming })

-- A read of no bytes is skipped, which is the same as reading them.
unfoldable pub read_frame : IpcStream → Result (List ℕ × IpcStream)
unfolding read_exact
read_frame s = read_exact 4 s >>= λ header. read_exact (from_be_bytes 0 header.0) header.1

-- What serde_json does with a message of type `A`.
pub record Json (A : Type 0) : Type 0 where
  pub to_vec : A → Outcome String (List ℕ)
  pub from_slice : List ℕ → Outcome String A

-- `.map_err(|e| LiteDroidError::IpcProtocolError(e.to_string()))`.
unfoldable pub protocol {ℓ} : {A : Type ℓ} → Outcome String A → Result A
protocol (ok a) = ok a
protocol (err e) = err (ipc_protocol_error e)
protocol panic = panic
protocol out_of_fuel = out_of_fuel

module _ {A : Type 0} (json : Json A) where
  -- `recv_request`, and the half of `send_request` that takes the response.
  unfoldable pub receive : IpcStream → Result (A × IpcStream)
  unfolding read_frame protocol
  receive s =
      read_frame s >>= λ got. protocol (json.from_slice got.0) >>= λ message. ok (message, got.1)

  -- `send_response`, `send_event`, and the half of `send_request` that puts the request.
  unfoldable pub send : A → IpcStream → Result IpcStream
  unfolding write_frame protocol
  send message s = protocol (json.to_vec message) >>= λ payload. write_frame payload s

-- `uuid` is what `Uuid::new_v4` gave.
unfoldable pub send_request :
    {V : Type 0}
    → Json (IpcRequest V)
    → Json (IpcResponse V)
    → (uuid method : String) (params : V) → IpcStream
    → Result (IpcResponse V × IpcStream)
send_request requests responses uuid method params s =
    send requests
      (record {
        version = ipc_protocol_version;
        request_id = uuid;
        method = method;
        params = params;
      })
      s
    >>= λ s. receive responses s

unfoldable pub ping :
    {V : Type 0}
    → Json (IpcRequest V)
    → Json (IpcResponse V)
    → (uuid : String) (null : V) → IpcStream
    → Bool
unfolding send_request
ping requests responses uuid null s = elim (send_request requests responses uuid "ping" null s) [
  | ok answer ↦ answer.0.success
  | err e ↦ false
  | panic ↦ false
  | out_of_fuel ↦ false
]
