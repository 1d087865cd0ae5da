-- ===== src/Dashboard/World.antt =====
-- The dashboard as it runs (internal/dashboard/server.go and terminal_server.go): its state, the socket
-- and deletion requests that have not returned, and the terminals. An event is one critical section.
use otherhost.Base.{
  ℕ, Bool, List, [], ◌∷◌, ◌++◌, Option, none, some, Bytes, Result, ok, err, if◌then◌else◌, element,
  without, replace,
}
use otherhost.Dashboard.Projects.{
  DeleteRequest, admit_deletion, end_deletion, hide_project, serve_snapshot,
}
use otherhost.Dashboard.Server.{Handler, Method, PendingTerminalSession, Project, Request}
use otherhost.Dashboard.Sockets.{SocketRequest, admit_socket}
use otherhost.Dashboard.Terminals.{
  TerminalRequest, attach_terminal, claim_session, close_terminals, create_terminal,
  remove_active_terminal,
}

pub record World : Type 0 where
  pub handler : Handler
  -- the sockets whose requests have not returned, oldest first, with their terminal if it is started
  pub sockets : List (Bytes × Option ℕ)
  -- the deletions whose deleter has not returned, oldest first
  pub deletions : List (Bytes × Project)
  -- the terminals that were started, and those that were closed
  pub opened : List ℕ
  pub closed : List ℕ

pub data Event : Type 0 where
  -- a snapshot request takes the lock, with the projects it has collected
  snapshot : Method → List Project → Event
  -- a terminal request, at the two times that it reads, with the id and the secret that it draws
  create : ℕ → ℕ → Option Bytes → Option Bytes → Request TerminalRequest → Event
  -- a socket request claims its session, at a time
  claim : ℕ → SocketRequest → Event
  -- the socket request of that number has started the terminal
  starts : ℕ → ℕ → Event
  -- the socket request of that number ends, before or after its terminal is started
  ends : ℕ → Event
  delete_project : Request DeleteRequest → Event
  -- the deleter of the deletion of that number returns, without an error or with one
  deleter_returns : ℕ → Bool → Event
  shut_down : Event

unfoldable pub begin_socket : World → Bytes → Handler × Option PendingTerminalSession → World
begin_socket w id (h, none) = record w { handler = h }
begin_socket w id (h, some s) = record w { handler = h; sockets = w.sockets ++ ((id, none) ∷ []) }

unfoldable pub claim_admitted : World → ℕ → Result ℕ (Bytes × List Bytes) → World
unfolding begin_socket
claim_admitted w now (err status) = w
claim_admitted w now (ok (id, protocols)) =
    begin_socket w id (claim_session w.handler now id protocols)

-- The socket of that number has a terminal; if the dashboard is closing, it closes it and returns.
unfoldable pub start_socket : World → ℕ → ℕ → Option (Bytes × Option ℕ) → World
start_socket w i t none = w
start_socket w i t (some (id, some u)) = w
start_socket w i t (some (id, none)) = record w {
  handler = attach_terminal w.handler id t;
  sockets = if w.handler.closing then without i w.sockets else replace i (id, some t) w.sockets;
  opened = t ∷ w.opened;
  closed = if w.handler.closing then t ∷ w.closed else w.closed;
}

abbrev pub also : Option ℕ → List ℕ → List ℕ
also none ts = ts
also (some t) ts = t ∷ ts

unfoldable pub end_socket : World → ℕ → Option (Bytes × Option ℕ) → World
end_socket w i none = w
end_socket w i (some (id, terminal)) = record w {
  handler = remove_active_terminal w.handler id;
  sockets = without i w.sockets;
  closed = also terminal w.closed;
}

unfoldable pub begin_deletion : World → Result ℕ (Bytes × Project) → World
begin_deletion w (err status) = w
begin_deletion w (ok (path, p)) = record w {
  handler = hide_project w.handler path;
  deletions = w.deletions ++ ((path, p) ∷ []);
}

unfoldable pub finish_deletion : World → ℕ → Bool → Option (Bytes × Project) → World
finish_deletion w i deleted none = w
finish_deletion w i deleted (some (path, p)) = record w {
  handler = end_deletion w.handler path p deleted;
  deletions = without i w.deletions;
}

unfoldable pub shut : World → World
shut w = record w {
  handler = (close_terminals w.handler).0;
  closed = (close_terminals w.handler).1 ++ w.closed;
}

unfoldable pub step : World → Event → World
unfolding claim_admitted start_socket end_socket begin_deletion finish_deletion shut
step w (snapshot method collected) = record w {
  handler = (serve_snapshot w.handler method collected).0;
}
step w (create now later id secret request) = record w {
  handler = create_terminal w.handler now later id secret request;
}
step w (claim now request) = claim_admitted w now (admit_socket request)
step w (starts i t) = start_socket w i t (element i w.sockets)
step w (ends i) = end_socket w i (element i w.sockets)
step w (delete_project request) = begin_deletion w (admit_deletion w.handler request)
step w (deleter_returns i deleted) = finish_deletion w i deleted (element i w.deletions)
step w shut_down = shut w

unfoldable pub run : World → List Event → World
unfolding step
run w [] = w
run w (e ∷ es) = run (step w e) es

unfoldable pub serve : Handler → World
serve handler = record { handler = handler; sockets = []; deletions = []; opened = []; closed = [] }
