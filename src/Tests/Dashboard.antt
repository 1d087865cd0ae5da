-- ===== src/Tests/Dashboard.antt =====
-- The dashboard's theorems at a small run: a snapshot, a terminal, a deletion and the shutdown.
use otherhost.Base.{
  ◌+◌, ◌≤◌, ◌≡◌, refl, List, [], ◌∷◌, ◌++◌, none, some, bytes_eq, codes, pos, length, find, IsMap,
  true, false,
}
use otherhost.Dashboard.Capacity.{AreFresh, run_terminal_limit}
use otherhost.Dashboard.Deletions.{run-hides_deletions}
use otherhost.Dashboard.Projects.{
  DeleteRequest, admit_deletion, end_deletion, hide_project, serve_snapshot, show_projects,
  visible_projects,
}
use otherhost.Dashboard.Server.{
  Handler, Project, Request, authorize, decode_body, get, is_get, is_post, new_handler, post,
  same_origin,
}
use otherhost.Dashboard.Shutdown.{is_listed, run-shut_down_closes}
use otherhost.Dashboard.Sockets.{
  SocketRequest, admit_socket, terminal_session_id, terminal_web_socket_origin_allowed,
}
use otherhost.Dashboard.Terminals.{
  TerminalRequest, admit_terminal, attach_terminal, claim_session, claimable, close_terminals,
  contains_secret_protocol, create_terminal, expire, normalize_terminal_size,
  remove_active_terminal, remove_expired, reserve_session, started, valid_terminal_size,
}
use otherhost.Dashboard.World.{
  Event, begin_deletion, begin_socket, claim, claim_admitted, create, delete_project,
  deleter_returns, end_socket, finish_deletion, run, serve, shut, shut_down, snapshot, start_socket,
  starts, step,
}
use otherhost.Text.{contains_byte, has_prefix}
use otherhost.Text.Parts.{has_suffix, trim_prefix, trim_suffix}

abbrev pub project : Project
project = record { name = codes "p"; path = codes "/p"; branch = []; technologies = [] }

abbrev asked : {A : Type 0} → A → Request A
asked body = record {
  method = post;
  host = codes "localhost:1";
  origin = codes "http://localhost:1";
  token = codes "tok";
  body = some body;
  at_end = true;
}

abbrev pub terminal_request : Request TerminalRequest
terminal_request = asked (record { path = codes "/p"; columns = pos 0; rows = pos 0 })

abbrev pub deletion_request : Request DeleteRequest
deletion_request = asked (record { path = codes "/p"; confirmation = codes "p" })

abbrev socket_request : SocketRequest
socket_request = record {
  method = get;
  host = codes "localhost:1";
  origin = codes "http://localhost:1";
  path = codes "/api/terminals/a/socket";
  protocols = codes "otherhost-terminal.s" ∷ [];
}

abbrev opening : List Event
opening =
    snapshot get (project ∷ [])
    ∷ create 5 5 (some (codes "a")) (some (codes "s")) terminal_request
    ∷ claim 6 socket_request
    ∷ starts 0 7
    ∷ create 8 9 (some (codes "b")) (some (codes "z")) terminal_request
    ∷ delete_project deletion_request
    ∷ []

abbrev all_events : List Event
all_events = opening ++ (snapshot get (project ∷ []) ∷ deleter_returns 0 false ∷ shut_down ∷ [])

abbrev handler : Handler
handler = new_handler true true (codes "tok")

opening_sockets : (run (serve handler) opening).sockets ≡ (codes "a", some 7) ∷ []
unfolding serve new_handler run step begin_socket claim_admitted start_socket end_socket
    begin_deletion finish_deletion shut admit_terminal attach_terminal claim_session claimable
    close_terminals contains_secret_protocol create_terminal expire normalize_terminal_size
    remove_active_terminal remove_expired reserve_session started valid_terminal_size authorize
    decode_body is_get is_post same_origin admit_socket has_suffix terminal_session_id
    terminal_web_socket_origin_allowed trim_prefix trim_suffix admit_deletion end_deletion
    hide_project serve_snapshot show_projects visible_projects contains_byte has_prefix bytes_eq
opening_sockets = refl

opening_deletions : find (codes "/p") (run (serve handler) opening).deletions ≡ some project
unfolding serve new_handler run step begin_socket claim_admitted start_socket end_socket
    begin_deletion finish_deletion shut admit_terminal attach_terminal claim_session claimable
    close_terminals contains_secret_protocol create_terminal expire normalize_terminal_size
    remove_active_terminal remove_expired reserve_session started valid_terminal_size authorize
    decode_body is_get is_post same_origin admit_socket has_suffix terminal_session_id
    terminal_web_socket_origin_allowed trim_prefix trim_suffix admit_deletion end_deletion
    hide_project serve_snapshot show_projects visible_projects contains_byte has_prefix bytes_eq
opening_deletions = refl

all_events_fresh : AreFresh (serve handler) all_events
unfolding serve new_handler run step begin_socket claim_admitted start_socket end_socket
    begin_deletion finish_deletion shut admit_terminal attach_terminal claim_session claimable
    close_terminals contains_secret_protocol create_terminal expire normalize_terminal_size
    remove_active_terminal remove_expired reserve_session started valid_terminal_size authorize
    decode_body is_get is_post same_origin admit_socket has_suffix terminal_session_id
    terminal_web_socket_origin_allowed trim_prefix trim_suffix admit_deletion end_deletion
    hide_project serve_snapshot show_projects visible_projects contains_byte has_prefix bytes_eq
all_events_fresh = (tt, (refl, (tt, (tt, (refl, (tt, (tt, (tt, (tt, tt)))))))))

all_events_closing : (run (serve handler) all_events).handler.closing ≡ true
unfolding serve new_handler run step begin_socket claim_admitted start_socket end_socket
    begin_deletion finish_deletion shut admit_terminal attach_terminal claim_session claimable
    close_terminals contains_secret_protocol create_terminal expire normalize_terminal_size
    remove_active_terminal remove_expired reserve_session started valid_terminal_size authorize
    decode_body is_get is_post same_origin admit_socket has_suffix terminal_session_id
    terminal_web_socket_origin_allowed trim_prefix trim_suffix admit_deletion end_deletion
    hide_project serve_snapshot show_projects visible_projects contains_byte has_prefix bytes_eq
all_events_closing = refl

all_events_opened : is_listed 7 (run (serve handler) all_events).opened ≡ true
unfolding serve new_handler run step begin_socket claim_admitted start_socket end_socket
    begin_deletion finish_deletion shut admit_terminal attach_terminal claim_session claimable
    close_terminals contains_secret_protocol create_terminal expire normalize_terminal_size
    remove_active_terminal remove_expired reserve_session started valid_terminal_size authorize
    decode_body is_get is_post same_origin admit_socket has_suffix terminal_session_id
    terminal_web_socket_origin_allowed trim_prefix trim_suffix admit_deletion end_deletion
    hide_project serve_snapshot show_projects visible_projects contains_byte has_prefix bytes_eq
all_events_opened = refl

run_terminal_limit_example :
    let w = run (serve handler) all_events in
    length w.handler.terminal_sessions + length w.sockets ≤ 4
run_terminal_limit_example = run_terminal_limit true true (codes "tok") all_events all_events_fresh

run-shut_down_closes_example :
    let w = run (serve handler) all_events in
    (w.handler.terminal_sessions ≡ [])
    × (w.handler.active_terminals ≡ [])
    × (is_listed 7 w.closed ≡ true)
run-shut_down_closes_example =
    run-shut_down_closes true true (codes "tok") all_events 7 all_events_fresh all_events_closing
      all_events_opened

run-hides_deletions_example :
    let w = run (serve handler) opening in
    (find (codes "/p") w.handler.projects ≡ none) × IsMap w.deletions
run-hides_deletions_example =
    run-hides_deletions true true (codes "tok") opening (codes "/p") project opening_deletions
