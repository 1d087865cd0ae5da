-- ===== src/Dashboard/Routes.antt =====
-- internal/dashboard/server.go: `ServeHTTP` up to the handler that it chooses, and `allowedRequestHost`.
pub mod Local
use otherhost.Base.{
  ℕ, ◌+◌, ◌≡◌, ◌⊎◌, inl, inr, refl, sym, subst, ap, ◌∙◌, Bool, true, false, not, ◌&&◌, ◌||◌, List,
  [], ◌∷◌, ◌++◌, Option, none, some, arith, if◌then◌else◌, ◌==◌, ==_iff, Bytes, codes, bytes_eq,
  bytes_eq_iff, drop, length, Result, ok, err, ◌>>=◌, ◌>>◌, refuse_if, Option-cases, Bool-cases,
}
use otherhost.Dashboard.Server.{Method, get, head, is_get, other_method, post}
use otherhost.Text.{contains_byte, has_prefix}
use otherhost.Text.Parts.{split_first}

abbrev pub or_here : ℕ → ℕ → Bytes → Option (Bytes × Bytes) → Option (Bytes × Bytes)
or_here b c s none = if c == b then some ([], s) else none
or_here b c s (some (front, back)) = some (c ∷ front, back)

-- The same for the last such byte.
unfoldable pub split_last : ℕ → Bytes → Option (Bytes × Bytes)
split_last b [] = none
split_last b (c ∷ s) = or_here b c s (split_last b s)

-- `net.SplitHostPort`: the host. In `[host]:port` the last colon stands right behind the bracket.
abbrev pub bracketed : Bytes → Bytes → Option (Bytes × Bytes) → Option Bytes
bracketed s front none = none
bracketed s front (some (host, rest)) =
    if length front == length host + 2 && not (contains_byte s 91 || contains_byte rest 93)
    then some host
    else none

abbrev pub host_of : Bytes → Option (Bytes × Bytes) → Option Bytes
host_of value none = none
host_of [] (some split) = none
host_of (c ∷ s) (some (front, port)) =
    if c == 91
    then bracketed s front (split_first 93 s)
    else if contains_byte front 58 || (contains_byte (c ∷ s) 91 || contains_byte (c ∷ s) 93)
    then none
    else some front

unfoldable pub split_host_port : Bytes → Option Bytes
split_host_port value = host_of value (split_last 58 value)

abbrev pub or_whole : Bytes → Option Bytes → Bytes
or_whole value none = value
or_whole value (some host) = host

unfoldable pub is_local_name : Bytes → Bool
is_local_name host = bytes_eq host (codes "127.0.0.1") || bytes_eq host (codes "localhost")

unfoldable pub allowed_request_host : Bytes → Bool
unfolding is_local_name
allowed_request_host value = is_local_name (or_whole value (split_host_port value))

pub data Route : Type 0 where
  to_snapshot to_open to_delete to_create to_socket to_assets : Route

unfoldable pub is_head : Method → Bool
is_head head = true
is_head _ = false

unfoldable pub choose_route : Method → Bytes → Result ℕ Route
choose_route method path =
    if bytes_eq path (codes "/api/snapshot")
    then ok to_snapshot
    else if bytes_eq path (codes "/api/projects/open")
    then ok to_open
    else if bytes_eq path (codes "/api/projects/delete")
    then ok to_delete
    else if bytes_eq path (codes "/api/terminals")
    then ok to_create
    else if has_prefix path (codes "/api/terminals/")
    then ok to_socket
    else if not (is_get method) && not (is_head method)
    then err 405
    else ok to_assets

unfoldable pub route : Bytes → Method → Bytes → Result ℕ Route
route host method path = do
  refuse_if (not (allowed_request_host host)) 421
  choose_route method path
