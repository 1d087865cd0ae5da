-- ===== src/Dashboard/Report/Sorted.antt =====
-- The order of the projects.
use otherhost.Base.Reordered.{IsReordered, behind, exchanged, in_turn, same}
use otherhost.Base.{◌≡◌, inl, inr, true, false, List, [], ◌∷◌, All, Bool-cases, Bytes}
use otherhost.Dashboard.Report.{insert_project, is_less, sort_projects}
use otherhost.Dashboard.Server.{Project}
use otherhost.Text.Order.{bytes_lt-asym, bytes_lt-below}

module _ (to_lower : Bytes → Bytes) where
  -- No project comes behind one that it is less than.
  abbrev pub IsSorted : List Project → Type 0
  IsSorted [] = Unit {0}
  IsSorted (p ∷ projects) = All (λ q. is_less to_lower q p ≡ false) projects × IsSorted projects

  is_less-below :
      (a b c : Project)
      → is_less to_lower b a ≡ false
      → is_less to_lower c b ≡ false
      → is_less to_lower c a ≡ false
  unfolding is_less
  is_less-below a b c p q = bytes_lt-below (to_lower a.name) (to_lower b.name) (to_lower c.name) p q

  is_less-asym : (a b : Project) → is_less to_lower a b ≡ true → is_less to_lower b a ≡ false
  unfolding is_less
  is_less-asym a b p = bytes_lt-asym (to_lower a.name) (to_lower b.name) p

  All-below :
      (a b : Project) (projects : List Project)
      → is_less to_lower b a ≡ false
      → All (λ q. is_less to_lower q b ≡ false) projects
      → All (λ q. is_less to_lower q a ≡ false) projects
  All-below a b [] p h = tt
  All-below a b (c ∷ projects) p h = (is_less-below a b c p h.0, All-below a b projects p h.1)

  pub All-insert_project :
      (P : Project → Type 0) (p : Project) (projects : List Project)
      → P p
      → All P projects
      → All P (insert_project to_lower p projects)
  unfolding insert_project
  All-insert_project P p [] h a = (h, tt)
  All-insert_project P p (q ∷ projects) h a = elim (Bool-cases (is_less to_lower q p)) [
    | inl e ↦ rw e (a.0, All-insert_project P p projects h a.1)
    | inr e ↦ rw e (h, a)
  ]

  insert_project-IsSorted :
      (p : Project) (projects : List Project)
      → IsSorted projects
      → IsSorted (insert_project to_lower p projects)
  unfolding insert_project
  insert_project-IsSorted p [] s = (tt, tt)
  insert_project-IsSorted p (q ∷ projects) s = elim (Bool-cases (is_less to_lower q p)) [
    | inl e ↦ rw e (
      All-insert_project (λ r. is_less to_lower r q ≡ false) p projects (is_less-asym q p e) s.0,
      insert_project-IsSorted p projects s.1,
    )
    | inr e ↦ rw e ((e, All-below p q projects e s.0), s)
  ]

  pub sort_projects-IsSorted :
      (projects : List Project) → IsSorted (sort_projects to_lower projects)
  unfolding sort_projects
  sort_projects-IsSorted [] = tt
  sort_projects-IsSorted (p ∷ projects) =
      insert_project-IsSorted p (sort_projects to_lower projects) (sort_projects-IsSorted projects)

  insert_project-IsReordered :
      (p : Project) (projects : List Project)
      → IsReordered (p ∷ projects) (insert_project to_lower p projects)
  unfolding insert_project
  insert_project-IsReordered p [] = same
  insert_project-IsReordered p (q ∷ projects) = elim (Bool-cases (is_less to_lower q p)) [
    | inl e ↦ rw e (in_turn exchanged (behind (insert_project-IsReordered p projects)))
    | inr e ↦ rw e same
  ]

  -- Sorting loses no project and adds none.
  pub sort_projects-IsReordered :
      (projects : List Project) → IsReordered projects (sort_projects to_lower projects)
  unfolding sort_projects
  sort_projects-IsReordered [] = same
  sort_projects-IsReordered (p ∷ projects) =
      in_turn (behind (sort_projects-IsReordered projects))
        (insert_project-IsReordered p (sort_projects to_lower projects))

  pub All-sort_projects :
      (P : Project → Type 0) (projects : List Project)
      → All P projects
      → All P (sort_projects to_lower projects)
  unfolding sort_projects
  All-sort_projects P [] h = tt
  All-sort_projects P (p ∷ projects) h =
      All-insert_project P p (sort_projects to_lower projects) h.0
        (All-sort_projects P projects h.1)
