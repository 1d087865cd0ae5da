-- ===== src/Dashboard/Deletions.antt =====
-- A project whose deletion runs is not available, and no second deletion of it runs.
pub mod Hidden
use otherhost.Dashboard.Deletions.Hidden.{
  Hides, admit_deletion-idle, end_deletion-Hides, find-paths_present, hide_project-Hides, paths,
  serve_snapshot-Hides,
}
use otherhost.Base.{
  ℕ, ◌≡◌, refl, sym, ap, ◌∙◌, Bool, true, false, ◌&&◌, List, [], ◌∷◌, ◌++◌, Option, none, some,
  arith, inl, inr, Bytes, bytes_eq, bytes_eq_iff, Result, ok, err, Result-cases, Bool-cases,
  element, without, if◌then◌else◌, find, insert, delete, has, IsMap, IsMap-insert, IsMap-delete,
  find-insert, find-delete, find-has, has-find, insert_absent, delete-element, delete-insert,
}
use otherhost.Dashboard.Projects.{
  DeleteRequest, admit_deletion, end_deletion, hide_project, serve_snapshot, show_projects,
}
use otherhost.Dashboard.Server.{
  new_handler, TerminalSize, Handler, Method, PendingTerminalSession, Project, Request, is_get,
}
use otherhost.Dashboard.Terminals.{
  attach_terminal, claim_session, claimed, close_terminals, create_terminal, create_admitted,
  admit_terminal, expire, remove_active_terminal, reserve_session,
}
use otherhost.Dashboard.World.{
  World, Event, snapshot, create, claim, starts, ends, delete_project, deleter_returns, shut_down,
  begin_socket, claim_admitted, start_socket, end_socket, begin_deletion, finish_deletion, shut,
  step, run, serve,
}

abbrev pub IsHiding : World → Type 0
IsHiding w = Hides w.handler w.deletions

start_socket-IsHiding :
    (w : World) (i t : ℕ) (socket : Option (Bytes × Option ℕ))
    → IsHiding w
    → IsHiding (start_socket w i t socket)
unfolding start_socket attach_terminal
start_socket-IsHiding w i t none v = v
start_socket-IsHiding w i t (some (id, some u)) v = v
start_socket-IsHiding w i t (some (id, none)) v = elim (Bool-cases w.handler.closing) [
  | inl c ↦ rw c v
  | inr c ↦ rw c v
]

end_socket-IsHiding :
    (w : World) (i : ℕ) (socket : Option (Bytes × Option ℕ))
    → IsHiding w
    → IsHiding (end_socket w i socket)
unfolding end_socket remove_active_terminal
end_socket-IsHiding w i none v = v
end_socket-IsHiding w i (some s) v = v

begin_socket-IsHiding :
    (w : World) (now : ℕ) (id : Bytes) (s : Option PendingTerminalSession)
    → IsHiding w
    → IsHiding (begin_socket w id (claimed (expire now w.handler) id s, s))
unfolding begin_socket expire
begin_socket-IsHiding w now id none v = v
begin_socket-IsHiding w now id (some c) v = v

claim_admitted-IsHiding :
    (w : World) (now : ℕ) (r : Result ℕ (Bytes × List Bytes))
    → IsHiding w
    → IsHiding (claim_admitted w now r)
unfolding claim_admitted claim_session
claim_admitted-IsHiding w now (err status) v = v
claim_admitted-IsHiding w now (ok (id, protocols)) v = begin_socket-IsHiding w now id _ v

create_admitted-IsHiding :
    (w : World) (now later : ℕ) (id_draw secret_draw : Option Bytes)
    (a : Result ℕ (Bytes × TerminalSize))
    → IsHiding w
    → IsHiding (record w { handler = create_admitted w.handler now later id_draw secret_draw a })
unfolding expire
create_admitted-IsHiding w now later id_draw secret_draw (err status) v = v
create_admitted-IsHiding w now later id_draw secret_draw (ok a) v =
    elim (Result-cases (reserve_session (expire now w.handler) later id_draw secret_draw a)) [
      | inl ((id, s), e) ↦ rw e v
      | inr (status, e) ↦ rw e v
    ]

begin_deletion-IsHiding :
    (w : World) (r : Result ℕ (Bytes × Project))
    → ((path : Bytes) (p : Project)
        → r ≡ ok (path, p)
        → find path w.handler.deleting_projects ≡ none)
    → IsHiding w
    → IsHiding (begin_deletion w r)
unfolding begin_deletion
begin_deletion-IsHiding w (err status) f v = v
begin_deletion-IsHiding w (ok (path, p)) f v =
    hide_project-Hides w.handler w.deletions path p (f path p refl) v

finish_deletion-IsHiding :
    (w : World) (i : ℕ) (deleted : Bool) (d : Option (Bytes × Project))
    → element i w.deletions ≡ d
    → IsHiding w
    → IsHiding (finish_deletion w i deleted d)
unfolding finish_deletion
finish_deletion-IsHiding w i deleted none e v = v
finish_deletion-IsHiding w i deleted (some (path, p)) e v =
    end_deletion-Hides w.handler w.deletions i path p deleted e v

shut-IsHiding : (w : World) → IsHiding w → IsHiding (shut w)
unfolding shut close_terminals
shut-IsHiding w v = v

step-IsHiding : (w : World) (e : Event) → IsHiding w → IsHiding (step w e)
unfolding step create_terminal
step-IsHiding w (snapshot method collected) v =
    serve_snapshot-Hides w.handler method collected w.deletions v
step-IsHiding w (create now later id_draw secret_draw request) v =
    create_admitted-IsHiding w now later id_draw secret_draw (admit_terminal w.handler request) v
step-IsHiding w (claim now request) v = claim_admitted-IsHiding w now _ v
step-IsHiding w (starts i t) v = start_socket-IsHiding w i t _ v
step-IsHiding w (ends i) v = end_socket-IsHiding w i _ v
step-IsHiding w (delete_project request) v =
    begin_deletion-IsHiding w _ (λ path p e. (admit_deletion-idle w.handler request path p e).0) v
step-IsHiding w (deleter_returns i deleted) v = finish_deletion-IsHiding w i deleted _ refl v
step-IsHiding w shut_down v = shut-IsHiding w v

run-IsHiding : (es : List Event) (w : World) → IsHiding w → IsHiding (run w es)
unfolding run
run-IsHiding [] w v = v
run-IsHiding (e ∷ es) w v = run-IsHiding es (step w e) (step-IsHiding w e v)

-- In whatever order a dashboard's requests meet: a project whose deletion runs is not among the projects
-- that can be opened, given a terminal or deleted, and no two deletions of one path run at a time.
pub run-hides_deletions :
    (has_terminal has_deleter : Bool) (token : Bytes) (es : List Event) (path : Bytes) (p : Project)
    → find path (run (serve (new_handler has_terminal has_deleter token)) es).deletions ≡ some p
    → let w = run (serve (new_handler has_terminal has_deleter token)) es in
      (find path w.handler.projects ≡ none) × IsMap w.deletions
unfolding serve new_handler
run-hides_deletions has_terminal has_deleter token es path p h =
    let w0 = serve (new_handler has_terminal has_deleter token) in
    let (a, m, d) = run-IsHiding es w0 (refl, tt, λ k u e. refl) in
    let w = run w0 es in (d path tt (ap (find path) a ∙ find-paths_present path w.deletions p h), m)

-- An admitted deletion ends as its deleter does: an error brings the project back as it was, a success
-- leaves all projects but that one, and both leave the set of running deletions as it was before.
pub end_deletion-restores :
    (h : Handler) (r : Request DeleteRequest) (path other : Bytes) (p : Project) (deleted : Bool)
    → admit_deletion h r ≡ ok (path, p)
    → let after = end_deletion (hide_project h path) path p deleted in
      (after.deleting_projects ≡ h.deleting_projects)
      × (find other after.projects
          ≡ (if deleted && bytes_eq path other then none else find other h.projects))
unfolding end_deletion hide_project
end_deletion-restores h r path other p true e =
    let (n, f) = admit_deletion-idle h r path p e in
    (delete-insert path tt h.deleting_projects n, find-delete path other h.projects)
end_deletion-restores h r path other p false e =
    let (n, f) = admit_deletion-idle h r path p e in
    (
      delete-insert path tt h.deleting_projects n,
      ground (
        arith,
        find-insert path other p (delete path h.projects),
        find-delete path other h.projects,
        bytes_eq_iff path other,
      ),
    )
