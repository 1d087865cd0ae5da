-- ===== src/Dashboard/Claims.antt =====
-- A terminal session is claimed once, whatever requests come in between.
use otherhost.Base.{
  ℕ, ◌≡◌, refl, ◌∙◌, Bool, true, false, List, [], ◌∷◌, Option, none, some, arith, inl, inr, leb,
  Bytes, bytes_eq, any, All, Result, ok, err, Result-cases, Bool-cases, element, find, has,
  find-insert, find-delete,
}
use otherhost.Dashboard.Guards.{claim_session_guards, claimable-absent, find-remove_expired_absent}
use otherhost.Dashboard.Projects.{admit_deletion, end_deletion, hide_project, serve_snapshot}
use otherhost.Dashboard.Server.{Handler, Method, PendingTerminalSession, Project, is_get}
use otherhost.Dashboard.Sockets.{admit_socket}
use otherhost.Dashboard.Terminals.{
  add_session, admit_terminal, attach_terminal, claim_session, claimed, close_terminals,
  create_terminal, expire, remove_active_terminal, reserve_session,
}
use otherhost.Dashboard.World.{
  Event, World, begin_deletion, begin_socket, claim, claim_admitted, create, delete_project,
  deleter_returns, end_socket, ends, finish_deletion, run, shut, shut_down, snapshot, start_socket,
  starts, step,
}

-- An event that does not draw the id for a new session.
abbrev pub IsOther : Bytes → Event → Type 0
IsOther id (create now later (some drawn) secret request) = bytes_eq drawn id ≡ false
IsOther id _ = Unit {0}

abbrev IsGone : Bytes → Handler → Type 0
IsGone id h = find id h.terminal_sessions ≡ none

expire-IsGone : (id : Bytes) (now : ℕ) (h : Handler) → IsGone id h → IsGone id (expire now h)
unfolding expire
expire-IsGone id now h g = find-remove_expired_absent id now h.terminal_sessions g

reserve_session-drawn :
    (h : Handler) (now : ℕ) (id_draw secret_draw : Option Bytes) (a : _) (id : Bytes)
    (s : PendingTerminalSession)
    → reserve_session h now id_draw secret_draw a ≡ ok (id, s)
    → id_draw ≡ some id
unfolding reserve_session
reserve_session-drawn h now id_draw secret_draw a id s e = ground arith

add_session-IsGone :
    (id : Bytes) (h : Handler) (r : Result ℕ (Bytes × PendingTerminalSession))
    → ((k : Bytes) (s : PendingTerminalSession) → r ≡ ok (k, s) → bytes_eq k id ≡ false)
    → IsGone id h
    → IsGone id (add_session h r)
add_session-IsGone id h (err status) f g = g
add_session-IsGone id h (ok (k, s)) f g =
    let other = f k s refl in find-insert k id s h.terminal_sessions ∙ rw other g

create_terminal-IsGone :
    (id : Bytes) (h : Handler) (now later : ℕ) (id_draw secret_draw : Option Bytes) (request : _)
    → ((k : Bytes) → id_draw ≡ some k → bytes_eq k id ≡ false)
    → IsGone id h
    → IsGone id (create_terminal h now later id_draw secret_draw request)
unfolding create_terminal
create_terminal-IsGone id h now later id_draw secret_draw request f g =
    elim (Result-cases (admit_terminal h request)) [
      | inr (status, e) ↦ rw e g
      | inl (a, e) ↦ rw e (
          add_session-IsGone id (expire now h) _
            (λ k s r. f k (reserve_session-drawn (expire now h) later id_draw secret_draw a k s r))
            (expire-IsGone id now h g))
    ]

claimed-IsGone :
    (id k : Bytes) (h : Handler) (s : Option PendingTerminalSession)
    → IsGone id h
    → IsGone id (claimed h k s)
claimed-IsGone id k h none g = g
claimed-IsGone id k h (some s) g = find-delete k id h.terminal_sessions ∙ ground arith

begin_socket-IsGone :
    (id k : Bytes) (w : World) (r : Handler × Option PendingTerminalSession)
    → IsGone id r.0
    → IsGone id (begin_socket w k r).handler
unfolding begin_socket
begin_socket-IsGone id k w (h, none) g = g
begin_socket-IsGone id k w (h, some s) g = g

claim_admitted-IsGone :
    (id : Bytes) (w : World) (now : ℕ) (r : Result ℕ (Bytes × List Bytes))
    → IsGone id w.handler
    → IsGone id (claim_admitted w now r).handler
unfolding claim_admitted claim_session
claim_admitted-IsGone id w now (err status) g = g
claim_admitted-IsGone id w now (ok (k, protocols)) g =
    begin_socket-IsGone id k w (claim_session w.handler now k protocols)
      (claimed-IsGone id k (expire now w.handler) _ (expire-IsGone id now w.handler g))

start_socket-IsGone :
    (id : Bytes) (w : World) (i t : ℕ) (socket : Option (Bytes × Option ℕ))
    → IsGone id w.handler
    → IsGone id (start_socket w i t socket).handler
unfolding start_socket attach_terminal
start_socket-IsGone id w i t none g = g
start_socket-IsGone id w i t (some (k, some u)) g = g
start_socket-IsGone id w i t (some (k, none)) g = elim (Bool-cases w.handler.closing) [
  | inl c ↦ rw c g
  | inr c ↦ rw c g
]

end_socket-IsGone :
    (id : Bytes) (w : World) (i : ℕ) (socket : Option (Bytes × Option ℕ))
    → IsGone id w.handler
    → IsGone id (end_socket w i socket).handler
unfolding end_socket remove_active_terminal
end_socket-IsGone id w i none g = g
end_socket-IsGone id w i (some (k, terminal)) g = g

begin_deletion-IsGone :
    (id : Bytes) (w : World) (r : Result ℕ (Bytes × Project))
    → IsGone id w.handler
    → IsGone id (begin_deletion w r).handler
unfolding begin_deletion hide_project
begin_deletion-IsGone id w (err status) g = g
begin_deletion-IsGone id w (ok (path, p)) g = g

finish_deletion-IsGone :
    (id : Bytes) (w : World) (i : ℕ) (deleted : Bool) (d : Option (Bytes × Project))
    → IsGone id w.handler
    → IsGone id (finish_deletion w i deleted d).handler
unfolding finish_deletion end_deletion
finish_deletion-IsGone id w i deleted none g = g
finish_deletion-IsGone id w i true (some (path, p)) g = g
finish_deletion-IsGone id w i false (some (path, p)) g = g

serve_snapshot-IsGone :
    (id : Bytes) (h : Handler) (method : Method) (collected : List Project)
    → IsGone id h
    → IsGone id (serve_snapshot h method collected).0
unfolding serve_snapshot
serve_snapshot-IsGone id h method collected g = elim (Bool-cases (is_get method)) [
  | inl e ↦ rw e g
  | inr e ↦ rw e g
]

drawn_other :
    (id : Bytes) (now later : ℕ) (id_draw secret : Option Bytes) (request : _)
    → IsOther id (create now later id_draw secret request)
    → (k : Bytes) → id_draw ≡ some k
    → bytes_eq k id ≡ false
drawn_other id now later none secret request o k e = cc
drawn_other id now later (some drawn) secret request o k e = ground arith

step-IsGone :
    (id : Bytes) (w : World) (e : Event)
    → IsOther id e
    → IsGone id w.handler
    → IsGone id (step w e).handler
unfolding step shut close_terminals
step-IsGone id w (snapshot method collected) o g =
    serve_snapshot-IsGone id w.handler method collected g
step-IsGone id w (create now later id_draw secret request) o g =
    create_terminal-IsGone id w.handler now later id_draw secret request
      (drawn_other id now later id_draw secret request o) g
step-IsGone id w (claim now request) o g = claim_admitted-IsGone id w now (admit_socket request) g
step-IsGone id w (starts i t) o g = start_socket-IsGone id w i t (element i w.sockets) g
step-IsGone id w (ends i) o g = end_socket-IsGone id w i (element i w.sockets) g
step-IsGone id w (delete_project request) o g =
    begin_deletion-IsGone id w (admit_deletion w.handler request) g
step-IsGone id w (deleter_returns i deleted) o g =
    finish_deletion-IsGone id w i deleted (element i w.deletions) g
step-IsGone id w shut_down o g = refl

run-IsGone :
    (id : Bytes) (es : List Event) (w : World)
    → All (IsOther id) es
    → IsGone id w.handler
    → IsGone id (run w es).handler
unfolding run
run-IsGone id [] w o g = g
run-IsGone id (e ∷ es) w o g = run-IsGone id es (step w e) o.1 (step-IsGone id w e o.0 g)

-- A session that a socket claims was reserved, has not expired, and its secret protocol is among those
-- that the request offers, in a dashboard that is not closing. Whatever happens afterwards, in any order,
-- as long as the id is not drawn again for a new session: no later claim of the id succeeds, whatever it
-- offers.
pub claim_session_once :
    (w : World) (now later : ℕ) (id : Bytes) (protocols others : List Bytes) (es : List Event)
    (s : PendingTerminalSession)
    → (claim_session w.handler now id protocols).1 ≡ some s
    → All (IsOther id) es
    → (w.handler.closing ≡ false)
      × (any (λ p. bytes_eq p s.protocol) protocols ≡ true)
      × (leb s.expires_at now ≡ false)
      × (has id w.handler.terminal_sessions ≡ true)
      × (let after = run (begin_socket w id (claim_session w.handler now id protocols)) es in
          (claim_session after.handler later id others).1 ≡ none)
unfolding claim_session
claim_session_once w now later id protocols others es s e o =
    let (c, p, l, h, gone) = claim_session_guards w.handler now id protocols s e in
    let claimed_world = begin_socket w id (claim_session w.handler now id protocols) in
    let begun = begin_socket-IsGone id id w (claim_session w.handler now id protocols) gone in
    let still = run-IsGone id es claimed_world o begun in
    (
      c,
      p,
      l,
      h,
      claimable-absent (expire later (run claimed_world es).handler) id others
          (expire-IsGone id later (run claimed_world es).handler still),
    )
