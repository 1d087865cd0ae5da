-- ===== src/Tests/Requests.antt =====
-- The checks in front of the dashboard's actions, at single requests.
use otherhost.Base.{
  Bytes, All, List, ◌+◌, ◌≡◌, refl, [], ◌∷◌, none, some, ok, bytes_eq, codes, find, true, false,
  ◌&&◌, ◌||◌, ◌*◌, ◌^◌, any, leb, has, if◌then◌else◌,
}
use otherhost.Dashboard.Deletions.{end_deletion-restores}
use otherhost.Dashboard.Claims.{IsOther, claim_session_once}
use otherhost.Dashboard.Guards.{create_terminal-guards}
use otherhost.Dashboard.Projects.{
  admit_deletion, end_deletion, hide_project, serve_snapshot, show_projects, visible_projects,
}
use otherhost.Dashboard.Server.{
  Handler, PendingTerminalSession, authorize, decode_body, is_get, is_post, new_handler,
  same_origin,
}
use otherhost.Dashboard.Sockets.{
  admit_socket, terminal_session_id, terminal_web_socket_origin_allowed,
}
use otherhost.Dashboard.Terminals.{
  admit_terminal, attach_terminal, claim_session, claimable, close_terminals,
  contains_secret_protocol, create_terminal, expire, normalize_terminal_size,
  remove_active_terminal, remove_expired, reserve_session, started, valid_terminal_size,
}
use otherhost.Dashboard.World.{
  Event, create, ends, starts, begin_deletion, begin_socket, claim_admitted, end_socket,
  finish_deletion, run, serve, shut, start_socket, step,
}
use otherhost.Text.{contains_byte, has_prefix}
use otherhost.Text.Parts.{has_suffix, trim_prefix, trim_suffix}
use otherhost.Tests.Dashboard.{project, terminal_request, deletion_request}

-- A dashboard that shows one project.
abbrev shown : Handler
shown = record {
  has_terminal = true;
  has_deleter = true;
  token = codes "tok";
  projects = (codes "/p", project) ∷ [];
  deleting_projects = [];
  terminal_sessions = [];
  active_terminals = [];
  closing = false;
}

admitted_deletion : admit_deletion shown deletion_request ≡ ok (codes "/p", project)
unfolding serve new_handler run step begin_socket claim_admitted start_socket end_socket
    begin_deletion finish_deletion shut admit_terminal attach_terminal claim_session claimable
    close_terminals contains_secret_protocol create_terminal expire normalize_terminal_size
    remove_active_terminal remove_expired reserve_session started valid_terminal_size authorize
    decode_body is_get is_post same_origin admit_socket has_suffix terminal_session_id
    terminal_web_socket_origin_allowed trim_prefix trim_suffix admit_deletion end_deletion
    hide_project serve_snapshot show_projects visible_projects contains_byte has_prefix bytes_eq
admitted_deletion = refl

end_deletion-restores_example :
    let after = end_deletion (hide_project shown (codes "/p")) (codes "/p") project false in
    (after.deleting_projects ≡ shown.deleting_projects)
    × (find (codes "/p") after.projects ≡ (
        if false && bytes_eq (codes "/p") (codes "/p")
        then none
        else find (codes "/p") shown.projects))
end_deletion-restores_example =
    end_deletion-restores shown deletion_request (codes "/p") (codes "/p") project false
      admitted_deletion

abbrev reserved : PendingTerminalSession
reserved = record {
  protocol = codes "otherhost-terminal.s";
  project_path = codes "/p";
  size = record { columns = 120; rows = 32 };
  expires_at = 30_000_000_005;
}

created :
    find
      (codes "a")
      (create_terminal shown 5 5
        (some (codes "a"))
        (some (codes "s"))
        terminal_request).terminal_sessions
    ≡ some reserved
unfolding serve new_handler run step begin_socket claim_admitted start_socket end_socket
    begin_deletion finish_deletion shut admit_terminal attach_terminal claim_session claimable
    close_terminals contains_secret_protocol create_terminal expire normalize_terminal_size
    remove_active_terminal remove_expired reserve_session started valid_terminal_size authorize
    decode_body is_get is_post same_origin admit_socket has_suffix terminal_session_id
    terminal_web_socket_origin_allowed trim_prefix trim_suffix admit_deletion end_deletion
    hide_project serve_snapshot show_projects visible_projects contains_byte has_prefix bytes_eq
created = refl

create_terminal-guards_example :
    (is_post terminal_request.method ≡ true)
    × (terminal_request.token ≡ shown.token)
    × (same_origin terminal_request ≡ true)
    × (shown.closing ≡ false)
    × ((bytes_eq reserved.project_path [] || has reserved.project_path shown.projects) ≡ true)
    × (valid_terminal_size reserved.size ≡ true)
    × (reserved.expires_at ≡ 5 + 30 * 10 ^ 9)
create_terminal-guards_example =
    create_terminal-guards shown 5 5 (some (codes "a")) (some (codes "s")) terminal_request
      (codes "a") reserved refl created

abbrev with_reserved : Handler
with_reserved = record shown { terminal_sessions = (codes "a", reserved) ∷ [] }

claims :
    (claim_session with_reserved 6 (codes "a") (codes "x" ∷ codes "otherhost-terminal.s" ∷ [])).1
    ≡ some reserved
unfolding serve new_handler run step begin_socket claim_admitted start_socket end_socket
    begin_deletion finish_deletion shut admit_terminal attach_terminal claim_session claimable
    close_terminals contains_secret_protocol create_terminal expire normalize_terminal_size
    remove_active_terminal remove_expired reserve_session started valid_terminal_size authorize
    decode_body is_get is_post same_origin admit_socket has_suffix terminal_session_id
    terminal_web_socket_origin_allowed trim_prefix trim_suffix admit_deletion end_deletion
    hide_project serve_snapshot show_projects visible_projects contains_byte has_prefix bytes_eq
claims = refl

abbrev offered : List Bytes
offered = codes "x" ∷ codes "otherhost-terminal.s" ∷ []

-- The terminal starts, its socket ends, and a session is asked for under another id.
abbrev events_between : List Event
events_between =
    starts 0 7 ∷ ends 0 ∷ create 7 7 (some (codes "b")) (some (codes "z")) terminal_request ∷ []

IsOther-drawn : All (IsOther (codes "a")) events_between
unfolding bytes_eq
IsOther-drawn = (tt, (tt, (refl, tt)))

claim_session_once_example :
    (with_reserved.closing ≡ false)
    × (any (λ p. bytes_eq p reserved.protocol) offered ≡ true)
    × (leb reserved.expires_at 6 ≡ false)
    × (has (codes "a") with_reserved.terminal_sessions ≡ true)
    × (let w = serve with_reserved in
        let after =
          run
            (begin_socket w (codes "a") (claim_session with_reserved 6 (codes "a") offered))
            events_between in
        (claim_session after.handler 8 (codes "a") offered).1 ≡ none)
unfolding serve
claim_session_once_example =
    claim_session_once (serve with_reserved) 6 8 (codes "a") offered offered events_between reserved
      claims IsOther-drawn
