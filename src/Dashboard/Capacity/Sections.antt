-- ===== src/Dashboard/Capacity/Sections.antt =====
-- The maps of the dashboard's handler next to the list of its sockets, and how each critical section
-- of internal/dashboard/terminal_server.go keeps them together.
use otherhost.Base.{
  ℕ, ◌+◌, ◌≤◌, ◌≡◌, refl, Bool, true, false, List, [], ◌∷◌, ◌++◌, Option, none, some, arith, inl,
  inr, Bytes, bytes_eq_iff, length, Option-cases, find, insert, delete, IsMap, IsMap-insert,
  IsMap-delete, find-insert, find-delete, length-insert-le, length-delete_present, insert_absent,
  element, without, replace, find-element, delete-element, insert-element, length-without-le,
  length-replace,
}
use otherhost.Dashboard.Server.{PendingTerminalSession}
use otherhost.Dashboard.Terminals.{max_terminal_sessions, remove_expired}

-- While the dashboard is open, its map of terminals is the list of sockets, and no id is both reserved
-- and in use; once it is closing, it has neither reservations nor terminals.
abbrev pub Tracks :
    Bool
    → List (Bytes × PendingTerminalSession)
    → List (Bytes × Option ℕ)
    → List (Bytes × Option ℕ)
    → Type 0
Tracks true sessions active sockets = (active ≡ []) × (sessions ≡ [])
Tracks false sessions active sockets =
    (active ≡ sockets)
    × IsMap sockets
    × ((id : Bytes) (t : Option ℕ) → find id sockets ≡ some t → find id sessions ≡ none)

abbrev pub Holds :
    Bool
    → List (Bytes × PendingTerminalSession)
    → List (Bytes × Option ℕ)
    → List (Bytes × Option ℕ)
    → Type 0
Holds closing sessions active sockets =
    (length sessions + length sockets ≤ max_terminal_sessions)
    × Tracks closing sessions active sockets

length-remove_expired-le :
    (now : ℕ) (m : List (Bytes × PendingTerminalSession)) → length (remove_expired now m) ≤ length m
unfolding remove_expired
length-remove_expired-le now [] = omega arith
length-remove_expired-le now (x ∷ m) = ground (arith, length-remove_expired-le now m)

find-remove_expired :
    (id : Bytes) (now : ℕ) (m : List (Bytes × PendingTerminalSession))
    → find id m ≡ none
    → find id (remove_expired now m) ≡ none
unfolding remove_expired
find-remove_expired id now [] h = refl
find-remove_expired id now (x ∷ m) h = ground (arith, find-remove_expired id now m)

module _ (sessions : List (Bytes × PendingTerminalSession))
    (active sockets : List (Bytes × Option ℕ)) where
  pub expire-Holds :
      (closing : Bool) (now : ℕ)
      → Holds closing sessions active sockets
      → Holds closing (remove_expired now sessions) active sockets
  expire-Holds true now (l, (a, s)) = ground (arith, length-remove_expired-le now sessions)
  expire-Holds false now (l, (a, m, d)) = (
    omega (arith, length-remove_expired-le now sessions),
    (a, m, λ id t e. find-remove_expired id now sessions (d id t e)),
  )

  pub add-Holds :
      (id : Bytes) (s : PendingTerminalSession)
      → find id active ≡ none
      → length sessions + length active + 1 ≤ max_terminal_sessions
      → Holds false sessions active sockets
      → Holds false (insert id s sessions) active sockets
  add-Holds id s n r (l, (a, m, d)) = (
    ground (arith, length-insert-le id s sessions),
    (a, m, λ j t e. ground (arith, find-insert id j s sessions, bytes_eq_iff id j, d j t e)),
  )

  unused_id :
      (id : Bytes) (s : PendingTerminalSession)
      → find id sessions ≡ some s
      → Tracks false sessions active sockets
      → find id sockets ≡ none
  unused_id id s f (a, m, d) = elim (Option-cases (find id sockets)) [
    | inl n ↦ n
    | inr (t, e) ↦ ground (arith, d id t e)
  ]

  pub claim-Holds :
      (id : Bytes) (s : PendingTerminalSession)
      → find id sessions ≡ some s
      → Holds false sessions active sockets
      → Holds false (delete id sessions) (insert id none active) (sockets ++ ((id, none) ∷ []))
  claim-Holds id s f (l, (a, m, d)) =
      let n = unused_id id s f (a, m, d) in
      let e = insert_absent id none sockets n in
      rw (← e) (
        (
          ground (arith, length-delete_present id s sessions f, length-insert-le id none sockets),
          (
            cc,
            IsMap-insert id none sockets m,
            λ j t h.
                ground (arith, find-insert id j none sockets, find-delete id j sessions, d j t),
          ),
        ))

  pub start-Holds :
      (i t : ℕ) (id : Bytes)
      → element i sockets ≡ some (id, none)
      → Holds false sessions active sockets
      → Holds false sessions (insert id (some t) active) (replace i (id, some t) sockets)
  start-Holds i t id e (l, (a, m, d)) =
      let r = insert-element i sockets id none (some t) m e in
      rw (← r) (
        (
          rw r (omega (arith, length-replace i (id, some t) sockets)),
          (
            cc,
            IsMap-insert id (some t) sockets m,
            λ j u h. ground (
              arith,
              find-insert id j (some t) sockets,
              bytes_eq_iff id j,
              find-element i sockets id none m e,
              d j u,
              d id none,
            ),
          ),
        ))

  pub end-Holds :
      (closing : Bool) (i : ℕ) (id : Bytes) (t : Option ℕ)
      → element i sockets ≡ some (id, t)
      → Holds closing sessions active sockets
      → Holds closing sessions (delete id active) (without i sockets)
  end-Holds true i id t e (l, (a, s)) =
      (ground (arith, length-without-le i sockets), (ground arith, s))
  end-Holds false i id t e (l, (a, m, d)) =
      let r = delete-element i sockets id t m e in
      rw (← r) (
        (
          rw r (omega (arith, length-without-le i sockets)),
          (cc, IsMap-delete id sockets m, λ j u h. ground (arith, find-delete id j sockets, d j u)),
        ))
