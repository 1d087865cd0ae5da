-- ===== src/Dashboard/Capacity.antt =====
-- At most four terminals are reserved or open, and the handler's map of terminals is the list of the
-- sockets that are open.
pub mod Sections
use otherhost.Dashboard.Capacity.Sections.{
  Holds, Tracks, expire-Holds, add-Holds, claim-Holds, start-Holds, end-Holds,
}
use otherhost.Base.{
  ℕ, ◌+◌, ◌≤◌, ◌≡◌, refl, sym, subst, Bool, true, false, List, [], ◌∷◌, ◌++◌, Option, none, some,
  arith, inl, inr, Bytes, bytes_eq, bytes_eq_iff, length, length-append, Result, ok, err,
  Result-cases, Option-cases, Bool-cases, find, insert, delete, has, IsMap, IsMap-insert,
  IsMap-delete, find-insert, find-delete, length-insert-le, length-delete_present, insert_absent,
  element, without, replace, find-element, delete-element, insert-element, length-without-le,
  length-replace, if◌then◌else◌,
}
use otherhost.Dashboard.Projects.{
  DeleteRequest, admit_deletion, end_deletion, hide_project, serve_snapshot,
}
use otherhost.Dashboard.Server.{
  new_handler, Handler, Method, is_get, TerminalSize, PendingTerminalSession, Project, Request,
}
use otherhost.Dashboard.Sockets.{SocketRequest, admit_socket}
use otherhost.Dashboard.Terminals.{
  TerminalRequest, add_session, admit_terminal, attach_terminal, claim_session, claimable, claimed,
  close_terminals, create_admitted, create_terminal, expire, max_terminal_sessions,
  remove_active_terminal, remove_expired, reserve_session,
}
use otherhost.Dashboard.World.{
  World, Event, snapshot, create, claim, starts, ends, delete_project, deleter_returns, shut_down,
  begin_socket, claim_admitted, start_socket, end_socket, begin_deletion, finish_deletion, shut,
  step, run, serve,
}

abbrev pub IsTracked : World → Type 0
IsTracked w =
    Holds w.handler.closing w.handler.terminal_sessions w.handler.active_terminals w.sockets

-- An id that is drawn is not in use.
abbrev pub IsFresh : World → Event → Type 0
IsFresh w (create now later (some id) secret request) = find id w.handler.active_terminals ≡ none
IsFresh w _ = Unit

abbrev pub AreFresh : World → List Event → Type 0
AreFresh w [] = Unit
AreFresh w (e ∷ es) = IsFresh w e × AreFresh (step w e) es

-- A reservation is made while there is room, under the id that was drawn.
pub reserve_session-room :
    (h : Handler) (now : ℕ) (id_draw secret_draw : Option Bytes) (a : Bytes × TerminalSize)
    (id : Bytes) (s : PendingTerminalSession)
    → reserve_session h now id_draw secret_draw a ≡ ok (id, s)
    → (h.closing ≡ false)
      × (length h.terminal_sessions + length h.active_terminals + 1 ≤ max_terminal_sessions)
      × (id_draw ≡ some id)
unfolding reserve_session
reserve_session-room h now id_draw secret_draw a id s e = ground arith

-- `Holds` of an open dashboard.
pub open_dashboard :
    (w : World)
    → w.handler.closing ≡ false
    → IsTracked w
    → Holds false w.handler.terminal_sessions w.handler.active_terminals w.sockets
open_dashboard w e v =
    subst (λ c. Holds c w.handler.terminal_sessions w.handler.active_terminals w.sockets) e v

-- A closing dashboard that loses a socket.
closing_dashboard :
    (w : World) (i : ℕ)
    → w.handler.closing ≡ true
    → IsTracked w
    → Holds true w.handler.terminal_sessions w.handler.active_terminals (without i w.sockets)
closing_dashboard w i e v = ground (arith, length-without-le i w.sockets)

expired-IsTracked :
    (w : World) (now : ℕ) → IsTracked w → IsTracked (record w { handler = expire now w.handler })
unfolding expire
expired-IsTracked w now v =
    expire-Holds w.handler.terminal_sessions w.handler.active_terminals w.sockets w.handler.closing
      now v

added-IsTracked :
    (w : World) (r : Result ℕ (Bytes × PendingTerminalSession))
    → ((id : Bytes) (s : PendingTerminalSession)
        → r ≡ ok (id, s)
        → (w.handler.closing ≡ false)
          × (length w.handler.terminal_sessions + length w.handler.active_terminals + 1
              ≤ max_terminal_sessions)
          × (find id w.handler.active_terminals ≡ none))
    → IsTracked w
    → IsTracked (record w { handler = add_session w.handler r })
added-IsTracked w (err status) f v = v
added-IsTracked w (ok (id, s)) f v =
    let (c, room, n) = f id s refl in
    rw c (
      add-Holds w.handler.terminal_sessions w.handler.active_terminals w.sockets id s n room
        (open_dashboard w c v))

create_admitted-IsTracked :
    (w : World) (now later : ℕ) (id_draw secret_draw : Option Bytes)
    (a : Result ℕ (Bytes × TerminalSize))
    → ((id : Bytes) → id_draw ≡ some id → find id w.handler.active_terminals ≡ none)
    → IsTracked w
    → IsTracked (record w { handler = create_admitted w.handler now later id_draw secret_draw a })
unfolding expire
create_admitted-IsTracked w now later id_draw secret_draw (err status) f v = v
create_admitted-IsTracked w now later id_draw secret_draw (ok a) f v =
    added-IsTracked (record w { handler = expire now w.handler }) _
      (λ id s e.
        let (c, room, d) =
          reserve_session-room (expire now w.handler) later id_draw secret_draw a id s e in
        (c, room, f id d))
      (expired-IsTracked w now v)

fresh_draw :
    (w : World) (now later : ℕ) (id_draw secret_draw : Option Bytes)
    (request : Request TerminalRequest)
    → IsFresh w (create now later id_draw secret_draw request)
    → (id : Bytes) → id_draw ≡ some id
    → find id w.handler.active_terminals ≡ none
fresh_draw w now later none secret_draw request f id e = ground arith
fresh_draw w now later (some d) secret_draw request f id e = ground arith

claimable-session :
    (h : Handler) (id : Bytes) (protocols : List Bytes) (s : PendingTerminalSession)
    → claimable h id protocols ≡ some s
    → (h.closing ≡ false) × (find id h.terminal_sessions ≡ some s)
unfolding claimable
claimable-session h id protocols s e = ground arith

begin_socket-IsTracked :
    (w : World) (id : Bytes) (s : Option PendingTerminalSession)
    → ((c : PendingTerminalSession)
        → s ≡ some c
        → (w.handler.closing ≡ false) × (find id w.handler.terminal_sessions ≡ some c))
    → IsTracked w
    → IsTracked (begin_socket w id (claimed w.handler id s, s))
unfolding begin_socket
begin_socket-IsTracked w id none f v = v
begin_socket-IsTracked w id (some c) f v =
    let (o, e) = f c refl in
    rw o (
      claim-Holds w.handler.terminal_sessions w.handler.active_terminals w.sockets id c e
        (open_dashboard w o v))

claim_admitted-IsTracked :
    (w : World) (now : ℕ) (r : Result ℕ (Bytes × List Bytes))
    → IsTracked w
    → IsTracked (claim_admitted w now r)
unfolding claim_admitted claim_session begin_socket
claim_admitted-IsTracked w now (err status) v = v
claim_admitted-IsTracked w now (ok (id, protocols)) v =
    begin_socket-IsTracked (record w { handler = expire now w.handler }) id _
      (λ c e. claimable-session (expire now w.handler) id protocols c e) (expired-IsTracked w now v)

start_socket-IsTracked :
    (w : World) (i t : ℕ) (socket : Option (Bytes × Option ℕ))
    → element i w.sockets ≡ socket
    → IsTracked w
    → IsTracked (start_socket w i t socket)
unfolding start_socket attach_terminal
start_socket-IsTracked w i t none e v = v
start_socket-IsTracked w i t (some (id, some u)) e v = v
start_socket-IsTracked w i t (some (id, none)) e v = elim (Bool-cases w.handler.closing) [
  | inl c ↦ rw c (closing_dashboard w i c v)
  | inr c ↦ rw c (
      start-Holds w.handler.terminal_sessions w.handler.active_terminals w.sockets i t id e
        (open_dashboard w c v))
]

end_socket-IsTracked :
    (w : World) (i : ℕ) (socket : Option (Bytes × Option ℕ))
    → element i w.sockets ≡ socket
    → IsTracked w
    → IsTracked (end_socket w i socket)
unfolding end_socket remove_active_terminal
end_socket-IsTracked w i none e v = v
end_socket-IsTracked w i (some (id, t)) e v =
    end-Holds w.handler.terminal_sessions w.handler.active_terminals w.sockets w.handler.closing i
      id t e v

serve_snapshot-IsTracked :
    (w : World) (method : Method) (collected : List Project)
    → IsTracked w
    → IsTracked (record w { handler = (serve_snapshot w.handler method collected).0 })
unfolding serve_snapshot
serve_snapshot-IsTracked w method collected v = elim (Bool-cases (is_get method)) [
  | inl g ↦ rw g v
  | inr g ↦ rw g v
]

begin_deletion-IsTracked :
    (w : World) (r : Result ℕ (Bytes × Project)) → IsTracked w → IsTracked (begin_deletion w r)
unfolding begin_deletion hide_project
begin_deletion-IsTracked w (err status) v = v
begin_deletion-IsTracked w (ok a) v = v

finish_deletion-IsTracked :
    (w : World) (i : ℕ) (deleted : Bool) (d : Option (Bytes × Project))
    → IsTracked w
    → IsTracked (finish_deletion w i deleted d)
unfolding finish_deletion end_deletion
finish_deletion-IsTracked w i deleted none v = v
finish_deletion-IsTracked w i true (some d) v = v
finish_deletion-IsTracked w i false (some d) v = v

shut-IsTracked : (w : World) → IsTracked w → IsTracked (shut w)
unfolding shut close_terminals
shut-IsTracked w v = (omega arith, (refl, refl))

pub step-IsTracked : (w : World) (e : Event) → IsFresh w e → IsTracked w → IsTracked (step w e)
unfolding step create_terminal
step-IsTracked w (snapshot method collected) f v = serve_snapshot-IsTracked w method collected v
step-IsTracked w (create now later id_draw secret_draw request) f v =
    create_admitted-IsTracked w now later id_draw secret_draw (admit_terminal w.handler request)
      (fresh_draw w now later id_draw secret_draw request f) v
step-IsTracked w (claim now request) f v = claim_admitted-IsTracked w now _ v
step-IsTracked w (starts i t) f v = start_socket-IsTracked w i t _ refl v
step-IsTracked w (ends i) f v = end_socket-IsTracked w i _ refl v
step-IsTracked w (delete_project request) f v = begin_deletion-IsTracked w _ v
step-IsTracked w (deleter_returns i deleted) f v = finish_deletion-IsTracked w i deleted _ v
step-IsTracked w shut_down f v = shut-IsTracked w v

pub run-IsTracked :
    (es : List Event) (w : World) → AreFresh w es → IsTracked w → IsTracked (run w es)
unfolding run
run-IsTracked [] w f v = v
run-IsTracked (e ∷ es) w (f, fs) v = run-IsTracked es (step w e) fs (step-IsTracked w e f v)

pub serve-IsTracked :
    (has_terminal has_deleter : Bool) (token : Bytes)
    → IsTracked (serve (new_handler has_terminal has_deleter token))
unfolding serve new_handler
serve-IsTracked has_terminal has_deleter token = (omega arith, (refl, tt, λ id t e. ground arith))

pub run_from_start-IsTracked :
    (has_terminal has_deleter : Bool) (token : Bytes) (es : List Event)
    → AreFresh (serve (new_handler has_terminal has_deleter token)) es
    → IsTracked (run (serve (new_handler has_terminal has_deleter token)) es)
run_from_start-IsTracked has_terminal has_deleter token es f =
    run-IsTracked es (serve (new_handler has_terminal has_deleter token)) f
      (serve-IsTracked has_terminal has_deleter token)

-- Whatever requests a dashboard serves, in any interleaving of their critical sections: the terminal
-- sessions that are reserved and the terminal sockets that are open are never more than four together,
-- if no id is drawn while a terminal with that id is open.
pub run_terminal_limit :
    (has_terminal has_deleter : Bool) (token : Bytes) (es : List Event)
    → AreFresh (serve (new_handler has_terminal has_deleter token)) es
    → let w = run (serve (new_handler has_terminal has_deleter token)) es in
      length w.handler.terminal_sessions + length w.sockets ≤ 4
run_terminal_limit has_terminal has_deleter token es f =
    (run_from_start-IsTracked has_terminal has_deleter token es f).0
