-- ===== src/Dashboard/Terminals.antt =====
-- internal/dashboard/terminal.go and terminal_server.go: terminal sizes, the pending sessions and
-- the terminals that are open. Each function is one critical section of a handler.
use otherhost.Base.{
  ℕ, zero, suc, ◌+◌, ◌*◌, ◌%◌, ◌^◌, Bool, true, not, ◌&&◌, List, [], ◌∷◌, ◌++◌, Option, none, some,
  if◌then◌else◌, leb, within, Bytes, codes, bytes_eq, length, any, ℤ, pos, negsuc, Result, ok, err,
  ◌>>=◌, ◌>>◌, refuse_if, or_err, find, insert, delete, has,
}
use otherhost.Dashboard.Server.{
  Handler, PendingTerminalSession, Request, TerminalSize, authorize, decode_body,
}

abbrev pub default_terminal_columns : ℕ
default_terminal_columns = 120

abbrev pub default_terminal_rows : ℕ
default_terminal_rows = 32

abbrev pub terminal_session_ttl : ℕ
terminal_session_ttl = 30 * 10 ^ 9

abbrev pub max_terminal_sessions : ℕ
max_terminal_sessions = 4

abbrev pub terminal_protocol_prefix : Bytes
terminal_protocol_prefix = codes "otherhost-terminal."

unfoldable pub valid_terminal_size : TerminalSize → Bool
valid_terminal_size size = within 20 400 size.columns && within 5 200 size.rows

-- `if columns == 0 { columns = defaultTerminalColumns }`
abbrev pub or_default : ℤ → ℕ → ℤ
or_default (pos zero) default = pos default
or_default (pos (suc n)) default = pos (suc n)
or_default (negsuc n) default = negsuc n

-- The size, converted to `uint16`, if both numbers lie in their ranges.
abbrev pub size_of : ℤ → ℤ → Option TerminalSize
size_of (pos columns) (pos rows) =
    if within 20 400 columns && within 5 200 rows
    then some (record { columns = columns % 2 ^ 16; rows = rows % 2 ^ 16 })
    else none
size_of (pos columns) (negsuc n) = none
size_of (negsuc n) rows = none

unfoldable pub normalize_terminal_size : ℤ → ℤ → Option TerminalSize
normalize_terminal_size columns rows =
    size_of (or_default columns default_terminal_columns) (or_default rows default_terminal_rows)

unfoldable pub remove_expired :
    ℕ → List (Bytes × PendingTerminalSession) → List (Bytes × PendingTerminalSession)
remove_expired now [] = []
remove_expired now ((id, s) ∷ m) =
    let rest = remove_expired now m in if leb s.expires_at now then rest else (id, s) ∷ rest

pub record TerminalRequest : Type 0 where
  pub path : Bytes
  pub columns : ℤ
  pub rows : ℤ

-- The checks in front of the lock.
unfoldable pub admit_terminal : Handler → Request TerminalRequest → Result ℕ (Bytes × TerminalSize)
admit_terminal handler request = do
  authorize handler request
  refuse_if (not handler.has_terminal) 422
  payload ← decode_body request
  size ← or_err (normalize_terminal_size payload.columns payload.rows) 400
  ok (payload.path, size)

-- What stands behind the lock: a new session under an id, with a secret, that `randomToken` draws, or a
-- refusal. Expired sessions are removed either way, by a first reading of the clock; the new session
-- expires by a second one.
unfoldable pub expire : ℕ → Handler → Handler
unfolding remove_expired
expire now handler = record handler {
  terminal_sessions = remove_expired now handler.terminal_sessions;
}

unfoldable pub reserve_session :
    Handler
    → ℕ
    → Option Bytes
    → Option Bytes
    → Bytes × TerminalSize
    → Result ℕ (Bytes × PendingTerminalSession)
reserve_session handler now id_draw secret_draw (path, size) = do
  refuse_if handler.closing 503
  refuse_if (not (bytes_eq path []) && not (has path handler.projects)) 404
  refuse_if
      (leb max_terminal_sessions
        (length handler.terminal_sessions + length handler.active_terminals))
      429
  id ← or_err id_draw 500
  secret ← or_err secret_draw 500
  ok (
    id,
    record {
      protocol = terminal_protocol_prefix ++ secret;
      project_path = path;
      size = size;
      expires_at = now + terminal_session_ttl;
    },
  )

abbrev pub add_session : Handler → Result ℕ (Bytes × PendingTerminalSession) → Handler
add_session handler (err status) = handler
add_session handler (ok (id, s)) = record handler {
  terminal_sessions = insert id s handler.terminal_sessions;
}

abbrev pub create_admitted :
    Handler → ℕ → ℕ → Option Bytes → Option Bytes → Result ℕ (Bytes × TerminalSize) → Handler
create_admitted handler now later id_draw secret_draw (err status) = handler
create_admitted handler now later id_draw secret_draw (ok admitted) =
    add_session (expire now handler)
      (reserve_session (expire now handler) later id_draw secret_draw admitted)

unfoldable pub create_terminal :
    Handler → ℕ → ℕ → Option Bytes → Option Bytes → Request TerminalRequest → Handler
create_terminal handler now later id_draw secret_draw request =
    create_admitted handler now later id_draw secret_draw (admit_terminal handler request)

unfoldable pub contains_secret_protocol : List Bytes → Bytes → Bool
unfolding bytes_eq
contains_secret_protocol protocols expected = any (λ p. bytes_eq p expected) protocols

-- The session that a socket request with that id and those subprotocols may claim.
unfoldable pub claimable : Handler → Bytes → List Bytes → Option PendingTerminalSession
unfolding contains_secret_protocol
claimable handler id protocols = elim (find id handler.terminal_sessions) [
  | none ↦ none
  | some s ↦
      if handler.closing
      then none
      else if contains_secret_protocol protocols s.protocol
      then some s
      else none
]

abbrev pub claimed : Handler → Bytes → Option PendingTerminalSession → Handler
claimed handler id none = handler
claimed handler id (some s) = record handler {
  terminal_sessions = delete id handler.terminal_sessions;
  active_terminals = insert id none handler.active_terminals;
}

-- The critical section of `serveTerminalSocket`: the state behind it, and the session if it is claimed.
unfoldable pub claim_session :
    Handler → ℕ → Bytes → List Bytes → Handler × Option PendingTerminalSession
unfolding expire claimable
claim_session handler now id protocols =
    let h = expire now handler in let s = claimable h id protocols in (claimed h id s, s)

unfoldable pub remove_active_terminal : Handler → Bytes → Handler
remove_active_terminal handler id = record handler {
  active_terminals = delete id handler.active_terminals;
}

-- The started terminal is registered, unless the dashboard is closing.
unfoldable pub attach_terminal : Handler → Bytes → ℕ → Handler
attach_terminal handler id terminal =
    if handler.closing
    then handler
    else record handler { active_terminals = insert id (some terminal) handler.active_terminals }

-- The terminals that have been started.
unfoldable pub started : List (Bytes × Option ℕ) → List ℕ
started [] = []
started ((id, none) ∷ m) = started m
started ((id, some t) ∷ m) = t ∷ started m

-- `CloseTerminals`: the state, and the terminals that it closes.
unfoldable pub close_terminals : Handler → Handler × List ℕ
unfolding started
close_terminals handler = (
  record handler { closing = true; active_terminals = []; terminal_sessions = [] },
  started handler.active_terminals,
)
