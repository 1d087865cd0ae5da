-- ===== src/Dashboard/Sockets.antt =====
-- internal/dashboard/terminal_server.go: the request of a terminal socket, and the messages that the
-- socket receives.
use otherhost.Base.{
  ℕ, zero, suc, Bool, not, ◌&&◌, ◌||◌, List, [], ◌∷◌, ◌++◌, Option, none, some, if◌then◌else◌,
  Bytes, codes, bytes_eq, drop, ℤ, Result, ok, err, ◌>>=◌, ◌>>◌, refuse_if, or_err,
}
use otherhost.Dashboard.Server.{Method, TerminalSize, is_get}
use otherhost.Dashboard.Terminals.{normalize_terminal_size}
use otherhost.Text.{contains_byte, has_prefix}
use otherhost.Text.Parts.{has_suffix, trim_prefix, trim_suffix}

pub record SocketRequest : Type 0 where
  pub method : Method
  pub host : Bytes
  pub origin : Bytes
  pub path : Bytes
  pub protocols : List Bytes

abbrev pub socket_prefix : Bytes
socket_prefix = codes "/api/terminals/"

abbrev pub socket_suffix : Bytes
socket_suffix = codes "/socket"

unfoldable pub terminal_session_id : Bytes → Option Bytes
terminal_session_id path =
    let id = trim_suffix (trim_prefix path socket_prefix) socket_suffix in
    if not (has_prefix path socket_prefix) || not (has_suffix path socket_suffix)
    then none
    else if not (bytes_eq id []) && not (contains_byte id 47)
    then some id
    else none

-- The path that `createTerminal` answers for a new session.
unfoldable pub socket_path : Bytes → Bytes
socket_path id = socket_prefix ++ (id ++ socket_suffix)

unfoldable pub terminal_web_socket_origin_allowed : SocketRequest → Bool
terminal_web_socket_origin_allowed request =
    bytes_eq request.origin (codes "http://" ++ request.host)

-- `serveTerminalSocket` up to the lock: the session id and the subprotocols.
unfoldable pub admit_socket : SocketRequest → Result ℕ (Bytes × List Bytes)
admit_socket request = do
  refuse_if (not (is_get request.method)) 405
  id ← or_err (terminal_session_id request.path) 403
  refuse_if (not (terminal_web_socket_origin_allowed request)) 403
  ok (id, request.protocols)

-- The errors of the messages' handlers, and the model's own: a loop out of fuel.
pub data MessageFault : Type 0 where
  short_write write_fault invalid_message invalid_size resize_fault out_of_fuel : MessageFault

-- A terminal that a session runs: its state, what it has read of its input, and its two operations.
-- `Write` answers the number of bytes that it took, or an error.
pub record TerminalDevice (T : Type 0) : Type 0 where
  pub write : T → Bytes → T × Option ℕ
  pub resize : T → TerminalSize → T × Bool
  pub received : T → Bytes

abbrev pub count : Option ℕ → ℕ
count none = 0
count (some n) = n

pub record ResizeMessage : Type 0 where
  pub kind : Bytes
  pub columns : ℤ
  pub rows : ℤ

abbrev pub resize_request : Option ResizeMessage → Bool → Result MessageFault TerminalSize
resize_request message at_end = do
  m ← or_err message invalid_message
  refuse_if (not at_end || not (bytes_eq m.kind (codes "resize"))) invalid_message
  or_err (normalize_terminal_size m.columns m.rows) invalid_size

module _ {T : Type 0} (device : TerminalDevice T) where
  -- A pass of the loop behind its `Write`: an error, nothing taken, or the rest of the message.
  abbrev pub resume : T → Option ℕ → T × Option MessageFault → T × Option MessageFault
  resume after none rest = (after, some write_fault)
  resume after (some zero) rest = (after, some short_write)
  resume after (some (suc n)) rest = rest

  -- The loop of `writeTerminalInput`; each pass but the last shortens the message.
  unfoldable pub write_terminal_input : ℕ → T → Bytes → T × Option MessageFault
  write_terminal_input fuel t [] = (t, none)
  write_terminal_input zero t (b ∷ message) = (t, some out_of_fuel)
  write_terminal_input (suc fuel) t (b ∷ message) =
      let (after, n) = device.write t (b ∷ message) in
      resume after n (write_terminal_input fuel after (drop (count n) (b ∷ message)))

  abbrev pub resized : T → Result MessageFault TerminalSize → T × Option MessageFault
  resized t (err fault) = (t, some fault)
  resized t (ok size) =
      let (after, done) = device.resize t size in (after, if done then none else some resize_fault)

  -- `resizeTerminal` with the first JSON value of the message and whether the message ends behind it.
  unfoldable pub resize_terminal : T → Option ResizeMessage → Bool → T × Option MessageFault
  resize_terminal t message at_end = resized t (resize_request message at_end)
