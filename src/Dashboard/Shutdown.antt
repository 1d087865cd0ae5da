-- ===== src/Dashboard/Shutdown.antt =====
-- Every terminal that a dashboard starts is closed: by its socket, or by the shutdown.
use otherhost.Base.{
  ℕ, zero, suc, ◌≡◌, refl, Bool, true, false, List, [], ◌∷◌, ◌++◌, ◌||◌, Option, none, some, arith,
  inl, inr, ◌==◌, Bytes, any, Result, ok, err, Option-cases, Result-cases, Bool-cases, element,
  without, replace, if◌then◌else◌,
}
use otherhost.Dashboard.Capacity.{
  AreFresh, IsTracked, open_dashboard, run-IsTracked, serve-IsTracked, step-IsTracked,
}
use otherhost.Dashboard.Projects.{end_deletion, hide_project, serve_snapshot}
use otherhost.Dashboard.Server.{
  new_handler, Method, TerminalSize, PendingTerminalSession, Project, is_get,
}
use otherhost.Dashboard.Terminals.{
  attach_terminal, claim_session, claimed, close_terminals, create_terminal, create_admitted,
  expire, admit_terminal, reserve_session, remove_active_terminal, started,
}
use otherhost.Dashboard.World.{
  World, Event, snapshot, create, claim, starts, ends, delete_project, deleter_returns, shut_down,
  begin_socket, claim_admitted, start_socket, end_socket, begin_deletion, finish_deletion, shut,
  step, run, serve, also,
}

abbrev pub is_listed : ℕ → List ℕ → Bool
is_listed t ts = any (λ u. u == t) ts

is_listed-append :
    (t : ℕ) (xs ys : List ℕ) → is_listed t (xs ++ ys) ≡ (is_listed t xs || is_listed t ys)
is_listed-append t [] ys = refl
is_listed-append t (x ∷ xs) ys = ground (arith, is_listed-append t xs ys)

module _ (t : ℕ) where
  started-append :
      (m : List (Bytes × Option ℕ)) (id : Bytes)
      → is_listed t (started (m ++ ((id, none) ∷ []))) ≡ is_listed t (started m)
  unfolding started
  started-append [] id = refl
  started-append ((j, none) ∷ m) id = started-append m id
  started-append ((j, some u) ∷ m) id = ground (arith, started-append m id)

  started-replace :
      (i : ℕ) (m : List (Bytes × Option ℕ)) (id : Bytes) (u : ℕ)
      → element i m ≡ some (id, none)
      → is_listed t (started (replace i (id, some u) m)) ≡ ((u == t) || is_listed t (started m))
  unfolding started
  started-replace i [] id u e = ground arith
  started-replace zero ((j, none) ∷ m) id u e = refl
  started-replace zero ((j, some x) ∷ m) id u e = ground arith
  started-replace (suc i) ((j, none) ∷ m) id u e = started-replace i m id u e
  started-replace (suc i) ((j, some x) ∷ m) id u e = ground (arith, started-replace i m id u e)

  started-without :
      (i : ℕ) (m : List (Bytes × Option ℕ)) (id : Bytes) (x : Option ℕ)
      → element i m ≡ some (id, x)
      → is_listed t (started m) ≡ (is_listed t (also x []) || is_listed t (started (without i m)))
  unfolding started
  started-without i [] id x e = ground arith
  started-without zero ((j, none) ∷ m) id x e = ground arith
  started-without zero ((j, some y) ∷ m) id x e = ground arith
  started-without (suc i) ((j, none) ∷ m) id x e = started-without i m id x e
  started-without (suc i) ((j, some y) ∷ m) id x e = ground (arith, started-without i m id x e)

  -- The terminals that a started one is among.
  abbrev pub remaining : World → Bool
  remaining w =
      is_listed t w.closed || (if w.handler.closing then false else is_listed t (started w.sockets))

  abbrev pub IsAccounted : World → Type 0
  IsAccounted w = (is_listed t w.opened ≡ true) → remaining w ≡ true

  start_socket-IsAccounted :
      (w : World) (i u : ℕ) (socket : Option (Bytes × Option ℕ))
      → element i w.sockets ≡ socket
      → IsAccounted w
      → IsAccounted (start_socket w i u socket)
  unfolding start_socket attach_terminal
  start_socket-IsAccounted w i u none e v = v
  start_socket-IsAccounted w i u (some (id, some x)) e v = v
  start_socket-IsAccounted w i u (some (id, none)) e v = λ h. elim (Bool-cases w.handler.closing) [
    | inl c ↦ ground arith
    | inr c ↦ ground (arith, started-replace i w.sockets id u e)
  ]

  end_socket-IsAccounted :
      (w : World) (i : ℕ) (socket : Option (Bytes × Option ℕ))
      → element i w.sockets ≡ socket
      → IsAccounted w
      → IsAccounted (end_socket w i socket)
  unfolding end_socket remove_active_terminal
  end_socket-IsAccounted w i none e v = v
  end_socket-IsAccounted w i (some (id, x)) e v = λ h. ground (
    arith,
    started-without i w.sockets id x e,
    is_listed-append t (also x []) w.closed,
    Option-cases x,
  )

  begin_socket-IsAccounted :
      (w : World) (now : ℕ) (id : Bytes) (s : Option PendingTerminalSession)
      → IsAccounted w
      → IsAccounted (begin_socket w id (claimed (expire now w.handler) id s, s))
  unfolding begin_socket expire
  begin_socket-IsAccounted w now id none v = v
  begin_socket-IsAccounted w now id (some c) v = λ h. ground (arith, started-append w.sockets id)

  claim_admitted-IsAccounted :
      (w : World) (now : ℕ) (r : Result ℕ (Bytes × List Bytes))
      → IsAccounted w
      → IsAccounted (claim_admitted w now r)
  unfolding claim_admitted claim_session begin_socket expire
  claim_admitted-IsAccounted w now (err status) v = v
  claim_admitted-IsAccounted w now (ok (id, protocols)) v = begin_socket-IsAccounted w now id _ v

  create_admitted-IsAccounted :
      (w : World) (now later : ℕ) (id_draw secret_draw : Option Bytes)
      (a : Result ℕ (Bytes × TerminalSize))
      → IsAccounted w
      → IsAccounted
          (record w { handler = create_admitted w.handler now later id_draw secret_draw a })
  unfolding expire
  create_admitted-IsAccounted w now later id_draw secret_draw (err status) v = v
  create_admitted-IsAccounted w now later id_draw secret_draw (ok a) v =
      let r = reserve_session (expire now w.handler) later id_draw secret_draw a in
      elim (Result-cases r) [ inl ((id, s), e) ↦ rw e v | inr (status, e) ↦ rw e v ]

  serve_snapshot-IsAccounted :
      (w : World) (method : Method) (collected : List Project)
      → IsAccounted w
      → IsAccounted (record w { handler = (serve_snapshot w.handler method collected).0 })
  unfolding serve_snapshot
  serve_snapshot-IsAccounted w method collected v = elim (Bool-cases (is_get method)) [
    | inl g ↦ rw g v
    | inr g ↦ rw g v
  ]

  begin_deletion-IsAccounted :
      (w : World) (r : Result ℕ (Bytes × Project))
      → IsAccounted w
      → IsAccounted (begin_deletion w r)
  unfolding begin_deletion hide_project
  begin_deletion-IsAccounted w (err status) v = v
  begin_deletion-IsAccounted w (ok a) v = v

  finish_deletion-IsAccounted :
      (w : World) (i : ℕ) (deleted : Bool) (d : Option (Bytes × Project))
      → IsAccounted w
      → IsAccounted (finish_deletion w i deleted d)
  unfolding finish_deletion end_deletion
  finish_deletion-IsAccounted w i deleted none v = v
  finish_deletion-IsAccounted w i true (some d) v = v
  finish_deletion-IsAccounted w i false (some d) v = v

  -- What is left to close when the dashboard is shut down.
  remaining-started :
      (w : World)
      → IsTracked w
      → remaining w ≡ true
      → (is_listed t (started w.handler.active_terminals) || is_listed t w.closed) ≡ true
  remaining-started w v h = elim (Bool-cases w.handler.closing) [
    | inl c ↦ ground arith
    | inr c ↦ ground (arith, (open_dashboard w c v).1)
  ]

  shut-IsAccounted : (w : World) → IsTracked w → IsAccounted w → IsAccounted (shut w)
  unfolding shut close_terminals
  shut-IsAccounted w k v = λ h. ground (
    arith,
    remaining-started w k (v h),
    is_listed-append t (started w.handler.active_terminals) w.closed,
  )

  step-IsAccounted : (w : World) (e : Event) → IsTracked w → IsAccounted w → IsAccounted (step w e)
  unfolding step create_terminal
  step-IsAccounted w (snapshot method collected) k v =
      serve_snapshot-IsAccounted w method collected v
  step-IsAccounted w (create now later id_draw secret_draw request) k v =
      create_admitted-IsAccounted w now later id_draw secret_draw (admit_terminal w.handler request)
        v
  step-IsAccounted w (claim now request) k v = claim_admitted-IsAccounted w now _ v
  step-IsAccounted w (starts i u) k v = start_socket-IsAccounted w i u _ refl v
  step-IsAccounted w (ends i) k v = end_socket-IsAccounted w i _ refl v
  step-IsAccounted w (delete_project request) k v = begin_deletion-IsAccounted w _ v
  step-IsAccounted w (deleter_returns i deleted) k v = finish_deletion-IsAccounted w i deleted _ v
  step-IsAccounted w shut_down k v = shut-IsAccounted w k v

  run-IsAccounted :
      (es : List Event) (w : World)
      → AreFresh w es
      → IsTracked w
      → IsAccounted w
      → IsAccounted (run w es)
  unfolding run
  run-IsAccounted [] w f k v = v
  run-IsAccounted (e ∷ es) w (f, fs) k v =
      run-IsAccounted es (step w e) fs (step-IsTracked w e f k) (step-IsAccounted w e k v)

-- Once a dashboard has been shut down, whatever it served before and serves still: no session is
-- reserved, no terminal is registered, and each terminal that was ever started has been closed, if no
-- id was drawn while a terminal with that id was open.
pub run-shut_down_closes :
    (has_terminal has_deleter : Bool) (token : Bytes) (es : List Event) (t : ℕ)
    → AreFresh (serve (new_handler has_terminal has_deleter token)) es
    → (run (serve (new_handler has_terminal has_deleter token)) es).handler.closing ≡ true
    → is_listed t (run (serve (new_handler has_terminal has_deleter token)) es).opened ≡ true
    → let w = run (serve (new_handler has_terminal has_deleter token)) es in
      (w.handler.terminal_sessions ≡ [])
      × (w.handler.active_terminals ≡ [])
      × (is_listed t w.closed ≡ true)
unfolding serve
run-shut_down_closes has_terminal has_deleter token es t f c h =
    let k = serve-IsTracked has_terminal has_deleter token in
    let w0 = serve (new_handler has_terminal has_deleter token) in
    let v = run-IsAccounted t es w0 f k (λ x. ground arith) in
    let r = run-IsTracked es w0 f k in ground (arith, v h)
