-- ===== src/Dashboard/Deletions/Hidden.antt =====
-- The set of running deletions next to the list of them, and the projects that they hide, through each
-- critical section of internal/dashboard/server.go.
use otherhost.Base.{
  ℕ, ◌≡◌, refl, sym, ap, ◌∙◌, Bool, true, false, List, [], ◌∷◌, ◌++◌, none, some, arith, inl, inr,
  Bytes, bytes_eq_iff, ok, Bool-cases, element, without, find, insert, delete, has, IsMap,
  IsMap-insert, IsMap-delete, find-insert, find-delete, find-has, has-find, insert_absent,
  delete-element,
}
use otherhost.Dashboard.Projects.{
  DeleteRequest, admit_deletion, end_deletion, hide_project, serve_snapshot, show_projects,
}
use otherhost.Dashboard.Server.{Handler, Method, Project, Request, is_get}

-- The paths of the deletions that run.
abbrev pub paths : List (Bytes × Project) → List (Bytes × Unit {0})
paths [] = []
paths ((path, p) ∷ m) = (path, tt) ∷ paths m

find-paths :
    (path : Bytes) (m : List (Bytes × Project)) → find path (paths m) ≡ none → find path m ≡ none
find-paths path [] h = refl
find-paths path ((k, p) ∷ m) h = ground (arith, find-paths path m)

pub find-paths_present :
    (path : Bytes) (m : List (Bytes × Project)) (p : Project)
    → find path m ≡ some p
    → find path (paths m) ≡ some tt
find-paths_present path [] p h = ground arith
find-paths_present path ((k, q) ∷ m) p h = ground (arith, find-paths_present path m p)

paths-insert :
    (path : Bytes) (p : Project) (m : List (Bytes × Project))
    → paths (insert path p m) ≡ insert path tt (paths m)
paths-insert path p [] = refl
paths-insert path p ((k, q) ∷ m) = ground (arith, paths-insert path p m)

paths-delete :
    (path : Bytes) (m : List (Bytes × Project)) → paths (delete path m) ≡ delete path (paths m)
paths-delete path [] = refl
paths-delete path ((k, q) ∷ m) = ground (arith, paths-delete path m)

abbrev pub Hides : Handler → List (Bytes × Project) → Type 0
Hides h deletions =
    (h.deleting_projects ≡ paths deletions)
    × IsMap deletions
    × ((path : Bytes) (u : Unit {0})
        → find path h.deleting_projects ≡ some u
        → find path h.projects ≡ none)

show_projects-hides :
    (path : Bytes) (deleting : List (Bytes × Unit {0})) (u : Unit {0}) (ps : List Project)
    (shown : List (Bytes × Project))
    → find path deleting ≡ some u
    → find path shown ≡ none
    → find path (show_projects deleting ps shown) ≡ none
unfolding show_projects
show_projects-hides path deleting u [] shown h n = n
show_projects-hides path deleting u (p ∷ ps) shown h n = elim (Bool-cases (has p.path deleting)) [
  | inl e ↦ rw e (show_projects-hides path deleting u ps shown h n)
  | inr e ↦ rw e (
      show_projects-hides path deleting u ps (insert p.path p shown) h (
        ground (
          arith,
          find-insert p.path path p shown,
          bytes_eq_iff p.path path,
          has-find path u deleting h,
        )))
]

pub serve_snapshot-Hides :
    (h : Handler) (method : Method) (collected : List Project) (ds : List (Bytes × Project))
    → Hides h ds
    → Hides (serve_snapshot h method collected).0 ds
unfolding serve_snapshot
serve_snapshot-Hides h method collected ds v = elim (Bool-cases (is_get method)) [
  | inl g ↦
      rw g
        ((v.0, v.1, λ path u e. show_projects-hides path h.deleting_projects u collected [] e refl))
  | inr g ↦ rw g v
]

-- What an admitted deletion has passed: no deletion of its path runs, and the project is available.
admit_deletion-available :
    (h : Handler) (r : Request DeleteRequest) (path : Bytes) (p : Project)
    → admit_deletion h r ≡ ok (path, p)
    → (has path h.deleting_projects ≡ false) × (find path h.projects ≡ some p)
unfolding admit_deletion
admit_deletion-available h r path p e = ground arith

pub admit_deletion-idle :
    (h : Handler) (r : Request DeleteRequest) (path : Bytes) (p : Project)
    → admit_deletion h r ≡ ok (path, p)
    → (find path h.deleting_projects ≡ none) × (find path h.projects ≡ some p)
admit_deletion-idle h r path p e =
    let (n, f) = admit_deletion-available h r path p e in (find-has path h.deleting_projects n, f)

pub hide_project-Hides :
    (h : Handler) (ds : List (Bytes × Project)) (path : Bytes) (p : Project)
    → find path h.deleting_projects ≡ none
    → Hides h ds
    → Hides (hide_project h path) (ds ++ ((path, p) ∷ []))
unfolding hide_project
hide_project-Hides h ds path p n (a, m, d) =
    let e = insert_absent path p ds (find-paths path ds (ground arith)) in
    rw (← e) (
      (
        ap (insert path tt) a ∙ sym (paths-insert path p ds),
        IsMap-insert path p ds m,
        λ j u f. ground (
          arith,
          find-insert path j tt h.deleting_projects,
          find-delete path j h.projects,
          d j tt,
        ),
      ))

pub end_deletion-Hides :
    (h : Handler) (ds : List (Bytes × Project)) (i : ℕ) (path : Bytes) (p : Project)
    (deleted : Bool)
    → element i ds ≡ some (path, p)
    → Hides h ds
    → Hides (end_deletion h path p deleted) (without i ds)
unfolding end_deletion
end_deletion-Hides h ds i path p true e (a, m, d) =
    let r = delete-element i ds path p m e in
    rw (← r) (
      (
        ap (delete path) a ∙ sym (paths-delete path ds),
        IsMap-delete path ds m,
        λ j u f. ground (arith, find-delete path j h.deleting_projects, d j tt),
      ))
end_deletion-Hides h ds i path p false e (a, m, d) =
    let r = delete-element i ds path p m e in
    rw (← r) (
      (
        ap (delete path) a ∙ sym (paths-delete path ds),
        IsMap-delete path ds m,
        λ j u f. ground (
          arith,
          find-delete path j h.deleting_projects,
          find-insert path j p h.projects,
          d j tt,
        ),
      ))
