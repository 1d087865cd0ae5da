-- ===== src/Dashboard/Server.antt =====
-- internal/dashboard/server.go: requests, the guards that every action shares, and the state.
use otherhost.Base.{
  ℕ, Bool, true, false, not, ◌||◌, List, [], ◌++◌, Option, none, some, if◌then◌else◌, Bytes, codes,
  bytes_eq, Result, ok, ◌>>=◌, ◌>>◌, refuse_if, or_err,
}
use otherhost.Text.Base64.Url.{raw_url_encode}

pub data Method : Type 0 where
  get head post other_method : Method

-- A request: its headers `Host`, `Origin` and `X-Otherhost-Token`, the first JSON value of its body if
-- it decodes within the limit, and whether the body ends behind it.
pub record Request (A : Type 0) : Type 0 where
  pub method : Method
  pub host : Bytes
  pub origin : Bytes
  pub token : Bytes
  pub body : Option A
  pub at_end : Bool

unfoldable pub is_get : Method → Bool
is_get get = true
is_get _ = false

unfoldable pub is_post : Method → Bool
is_post post = true
is_post _ = false

unfoldable pub same_origin : {A : Type 0} → Request A → Bool
unfolding bytes_eq
same_origin r = if bytes_eq r.origin [] then true else bytes_eq r.origin (codes "http://" ++ r.host)

-- `randomToken`, with the bytes that are drawn; none where the system's source fails.
unfoldable pub random_token : Option Bytes → Option Bytes
random_token none = none
random_token (some drawn) = some (raw_url_encode drawn)

pub record Project : Type 0 where
  pub name : Bytes
  pub path : Bytes
  pub branch : Bytes
  pub technologies : List Bytes

pub record TerminalSize : Type 0 where
  pub columns : ℕ
  pub rows : ℕ

-- Times are in nanoseconds.
pub record PendingTerminalSession : Type 0 where
  pub protocol : Bytes
  pub project_path : Bytes
  pub size : TerminalSize
  pub expires_at : ℕ

-- The fields that the handlers read and write. A started terminal is a number; in `active_terminals`
-- an entry is `none` until its terminal is started.
pub record Handler : Type 0 where
  pub has_terminal : Bool
  pub has_deleter : Bool
  pub token : Bytes
  pub projects : List (Bytes × Project)
  pub deleting_projects : List (Bytes × Unit {0})
  pub terminal_sessions : List (Bytes × PendingTerminalSession)
  pub active_terminals : List (Bytes × Option ℕ)
  pub closing : Bool

-- `Method not allowed` and `Action not authorized`.
unfoldable pub authorize : {A : Type 0} → Handler → Request A → Result ℕ (Unit {0})
unfolding is_post same_origin
authorize handler r = do
  refuse_if (not (is_post r.method)) 405
  refuse_if (not (bytes_eq r.token handler.token) || not (same_origin r)) 403

-- The body holds one JSON value and no more.
unfoldable pub decode_body : {A : Type 0} → Request A → Result ℕ A
decode_body r = do value ← or_err r.body 400; refuse_if (not r.at_end) 400; ok value

-- `NewHandlerWithServices`
unfoldable pub new_handler : Bool → Bool → Bytes → Handler
new_handler has_terminal has_deleter token = record {
  has_terminal = has_terminal;
  has_deleter = has_deleter;
  token = token;
  projects = [];
  deleting_projects = [];
  terminal_sessions = [];
  active_terminals = [];
  closing = false;
}
