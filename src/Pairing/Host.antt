-- ===== src/Pairing/Host.antt =====
-- internal/pairing/host.go: the handlers of the pairing host. Each function is one critical section
-- or one uninterrupted run of a handler; what the handler waits for, draws or writes to is an argument.
pub mod Handlers
pub mod World
pub mod Taken
pub mod Once
pub mod Carried
pub mod Authentic
pub mod Rejection
pub mod Outcomes
pub mod Approval
use otherhost.Base.{
  ℕ, Bool, true, false, not, ◌&&◌, Option, none, some, Bytes, ℤ, Result, ok, err, ◌>>=◌, ◌>>◌,
  refuse_if, or_err,
}
use otherhost.Pairing.Keys.{SessionKeys}
use otherhost.Pairing.Local.{Ip, is_local_network_ip}
use otherhost.Pairing.Messages.{HelloRequest, HelloResponse, ConfirmResponse}

-- The fields of `HostOptions` that the handlers read; a duration is in nanoseconds.
pub record HostOptions : Type 0 where
  pub name : Bytes
  pub ssh_user : Bytes
  pub ssh_port : ℤ
  pub duration : ℕ

-- The channel `decision` has room for one answer, which `decision` holds until it is received.
pub record HostSession : Type 0 where
  pub id : Bytes
  pub request : HelloRequest
  pub response : HelloResponse
  pub keys : SessionKeys
  pub code : Bytes
  pub decision : Option Bool
  pub expires : ℕ

-- What `RunHost` returns, as it is sent to `done`.
pub data Outcome : Type 0 where
  paired rejected_on_windows rejected_on_mac : Outcome
  install_failed host_key_failed seal_failed client_disconnected service_failed : Outcome

-- The channel `done` has room for one outcome.
pub record PairingHost : Type 0 where
  pub options : HostOptions
  pub instance_id : Bytes
  pub session : Option HostSession
  pub done : Option Outcome

-- A request as the handlers see it: the method, the address of the sender (`no_ip` where it has none),
-- the first JSON value of the body if it decodes, and whether the body ends behind it.
pub data Method : Type 0 where
  get post other_method : Method

pub record Request (A : Type 0) : Type 0 where
  pub method : Method
  pub remote : Ip
  pub body : Option A
  pub at_end : Bool

-- What is written back: a status with a message, or a JSON value.
pub data Response : Type 0 where
  error : ℕ → Response
  hello : HelloResponse → Response
  confirmed : ConfirmResponse → Response
  no_content : Response
  nothing : Response

unfoldable pub is_post : Method → Bool
is_post post = true
is_post _ = false

unfoldable pub local_post : {A : Type 0} → Request A → Bool
local_post r = is_post r.method && is_local_network_ip r.remote

unfoldable pub decode_json_body : {A : Type 0} → Request A → Result ℕ A
decode_json_body r = do value ← or_err r.body 400; refuse_if (not r.at_end) 400; ok value

-- A send that does not block, on a channel with room for one value.
abbrev pub try_send : {A : Type 0} → Option A → A → Option A
try_send none value = some value
try_send (some earlier) value = some earlier

unfoldable pub finish : PairingHost → Outcome → PairingHost
finish host outcome = record host { done = try_send host.done outcome }
