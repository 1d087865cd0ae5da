-- ===== src/Dashboard/Guards.antt =====
-- What stands behind a terminal session: who may reserve one, and who may claim it, once.
use otherhost.Base.{
  ℕ, ◌||◌, ◌+◌, ◌*◌, ◌^◌, ◌≡◌, refl, subst, has-find, true, false, List, [], ◌∷◌, Option, none,
  some, arith, inl, inr, leb, Bytes, bytes_eq, bytes_eq_iff, bytes_eq_refl, any, ℤ, pos, negsuc,
  Result, ok, err, Option-cases, Result-cases, find, delete, has, find-insert, find-delete,
}
use otherhost.Dashboard.Server.{
  Handler, PendingTerminalSession, Request, TerminalSize, authorize, is_post, same_origin,
}
use otherhost.Dashboard.Terminals.{
  TerminalRequest, add_session, admit_terminal, claim_session, claimable, contains_secret_protocol,
  create_admitted, create_terminal, default_terminal_columns, default_terminal_rows, expire,
  normalize_terminal_size, or_default, remove_expired, reserve_session, size_of,
  terminal_session_ttl, valid_terminal_size,
}

size_of-valid :
    (c r : ℤ) (size : TerminalSize)
    → size_of c r ≡ some size
    → (valid_terminal_size size ≡ true) × (c ≡ pos size.columns) × (r ≡ pos size.rows)
unfolding valid_terminal_size
size_of-valid (pos c) (pos r) size e = ground arith
size_of-valid (pos c) (negsuc r) size e = ground arith
size_of-valid (negsuc c) r size e = ground arith

-- A normalised size is one from 20 × 5 to 400 × 200, and is the size asked for, where 0 asks for the
-- default: the conversion to 16 bits loses nothing.
pub normalize_terminal_size-valid :
    (columns rows : ℤ) (size : TerminalSize)
    → normalize_terminal_size columns rows ≡ some size
    → (valid_terminal_size size ≡ true)
      × (or_default columns default_terminal_columns ≡ pos size.columns)
      × (or_default rows default_terminal_rows ≡ pos size.rows)
unfolding normalize_terminal_size
normalize_terminal_size-valid columns rows size e = size_of-valid _ _ size e

authorize-caller :
    {A : Type 0} (h : Handler) (r : Request A)
    → authorize h r ≡ ok tt
    → (is_post r.method ≡ true) × (bytes_eq r.token h.token ≡ true) × (same_origin r ≡ true)
unfolding authorize
authorize-caller h r e = ground arith

find-remove_expired_live :
    (id : Bytes) (now : ℕ) (m : List (Bytes × PendingTerminalSession)) (s : PendingTerminalSession)
    → find id (remove_expired now m) ≡ some s
    → leb s.expires_at now ≡ false
unfolding remove_expired
find-remove_expired_live id now [] s e = ground arith
find-remove_expired_live id now (x ∷ m) s e = ground (arith, find-remove_expired_live id now m s)

pub find-remove_expired_absent :
    (id : Bytes) (now : ℕ) (m : List (Bytes × PendingTerminalSession))
    → find id m ≡ none
    → find id (remove_expired now m) ≡ none
unfolding remove_expired
find-remove_expired_absent id now [] h = refl
find-remove_expired_absent id now (x ∷ m) h = ground (arith, find-remove_expired_absent id now m)

claimable-guards :
    (h : Handler) (id : Bytes) (protocols : List Bytes) (s : PendingTerminalSession)
    → claimable h id protocols ≡ some s
    → (h.closing ≡ false)
      × (contains_secret_protocol protocols s.protocol ≡ true)
      × (find id h.terminal_sessions ≡ some s)
unfolding claimable
claimable-guards h id protocols s e = ground arith

pub claimable-absent :
    (h : Handler) (id : Bytes) (protocols : List Bytes)
    → find id h.terminal_sessions ≡ none
    → claimable h id protocols ≡ none
unfolding claimable
claimable-absent h id protocols e = ground arith

find-delete_same :
    (id : Bytes) (m : List (Bytes × PendingTerminalSession)) → find id (delete id m) ≡ none
find-delete_same id m = ground (arith, find-delete id id m, bytes_eq_refl id)

was_reserved :
    (h : Handler) (now : ℕ) (id : Bytes) (s : PendingTerminalSession)
    → find id (remove_expired now h.terminal_sessions) ≡ some s
    → has id h.terminal_sessions ≡ true
was_reserved h now id s f = elim (Option-cases (find id h.terminal_sessions)) [
  | inl n ↦ ground (arith, find-remove_expired_absent id now h.terminal_sessions n)
  | inr (u, e) ↦ has-find id u h.terminal_sessions e
]

-- What a claim has checked, and that its session is gone.
pub claim_session_guards :
    (h : Handler) (now : ℕ) (id : Bytes) (protocols : List Bytes) (s : PendingTerminalSession)
    → (claim_session h now id protocols).1 ≡ some s
    → (h.closing ≡ false)
      × (any (λ p. bytes_eq p s.protocol) protocols ≡ true)
      × (leb s.expires_at now ≡ false)
      × (has id h.terminal_sessions ≡ true)
      × (find id (claim_session h now id protocols).0.terminal_sessions ≡ none)
unfolding claim_session expire contains_secret_protocol
claim_session_guards h now id protocols s e =
    let (o, p, f) = claimable-guards (expire now h) id protocols s e in
    (
      o,
      p,
      find-remove_expired_live id now h.terminal_sessions s f,
      was_reserved h now id s f,
      rw e (find-delete_same id (remove_expired now h.terminal_sessions)),
    )

normalized-valid :
    (p : TerminalRequest) (size : TerminalSize)
    → normalize_terminal_size p.columns p.rows ≡ some size
    → valid_terminal_size size ≡ true
normalized-valid p size e = (normalize_terminal_size-valid p.columns p.rows size e).0

admit_terminal-admitted :
    (h : Handler) (r : Request TerminalRequest) (path : Bytes) (size : TerminalSize)
    → admit_terminal h r ≡ ok (path, size)
    → (authorize h r ≡ ok tt) × (valid_terminal_size size ≡ true)
unfolding admit_terminal
admit_terminal-admitted h r path size e = grind (arith, normalized-valid)

reserve_session-guards :
    (h : Handler) (now : ℕ) (id_draw secret_draw : Option Bytes) (path id : Bytes)
    (size : TerminalSize) (s : PendingTerminalSession)
    → reserve_session h now id_draw secret_draw (path, size) ≡ ok (id, s)
    → (h.closing ≡ false)
      × ((bytes_eq path [] || has path h.projects) ≡ true)
      × (s.project_path ≡ path)
      × (s.size ≡ size)
      × (s.expires_at ≡ now + terminal_session_ttl)
unfolding reserve_session
reserve_session-guards h now id_draw secret_draw path id size s e = ground arith

added_session :
    (h : Handler) (id : Bytes) (s : PendingTerminalSession)
    (r : Result ℕ (Bytes × PendingTerminalSession))
    → find id h.terminal_sessions ≡ none
    → find id (add_session h r).terminal_sessions ≡ some s
    → r ≡ ok (id, s)
added_session h id s (err status) n f = ground arith
added_session h id s (ok (k, t)) n f =
    ground (arith, find-insert k id t h.terminal_sessions, bytes_eq_iff k id)

-- A session that a request adds to a dashboard was asked for by a POST with the dashboard's token from
-- the dashboard's own pages (or without an origin), while the dashboard is not closing; its project is
-- available (or its path is empty), its size is valid, and it expires the time to live after the second reading of the clock.
pub create_terminal-guards :
    (h : Handler) (now later : ℕ) (id_draw secret_draw : Option Bytes) (r : Request TerminalRequest)
    (id : Bytes) (s : PendingTerminalSession)
    → find id h.terminal_sessions ≡ none
    → find id (create_terminal h now later id_draw secret_draw r).terminal_sessions ≡ some s
    → (is_post r.method ≡ true)
      × (r.token ≡ h.token)
      × (same_origin r ≡ true)
      × (h.closing ≡ false)
      × ((bytes_eq s.project_path [] || has s.project_path h.projects) ≡ true)
      × (valid_terminal_size s.size ≡ true)
      × (s.expires_at ≡ later + 30 * 10 ^ 9)
unfolding create_terminal expire
create_terminal-guards h now later id_draw secret_draw r id s n f =
    elim (Result-cases (admit_terminal h r)) [
      | inl ((path, size), e) ↦
          let (a, v) = admit_terminal-admitted h r path size e in
          let (m, t, o) = authorize-caller h r a in
          let (c, p, q, z, x) =
            reserve_session-guards (expire now h) later id_draw secret_draw path id size s (
              added_session (expire now h) id s _
                (find-remove_expired_absent id now h.terminal_sessions n)
                (subst
                  (λ a.
                    find id (create_admitted h now later id_draw secret_draw a).terminal_sessions
                    ≡ some s)
                  e f)) in
          ground (arith, bytes_eq_iff r.token h.token)
      | inr (status, e) ↦ ground arith
    ]
