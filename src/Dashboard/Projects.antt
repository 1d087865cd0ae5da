-- ===== src/Dashboard/Projects.antt =====
-- internal/dashboard/server.go: the visible projects, and their deletion.
use otherhost.Base.{
  ℕ, Bool, not, List, [], ◌∷◌, if◌then◌else◌, Bytes, bytes_eq, Result, ok, err, ◌>>=◌, ◌>>◌,
  refuse_if, or_err, find, insert, delete, has,
}
use otherhost.Dashboard.Server.{Handler, Method, Project, is_get, Request, authorize, decode_body}

-- The loop of `serveSnapshot`: the projects that are not being deleted, as a map and as a list.
unfoldable pub show_projects :
    List (Bytes × Unit {0}) → List Project → List (Bytes × Project) → List (Bytes × Project)
show_projects deleting [] shown = shown
show_projects deleting (p ∷ ps) shown =
    show_projects deleting ps (if has p.path deleting then shown else insert p.path p shown)

unfoldable pub visible_projects : List (Bytes × Unit {0}) → List Project → List Project
visible_projects deleting [] = []
visible_projects deleting (p ∷ ps) =
    let rest = visible_projects deleting ps in if has p.path deleting then rest else p ∷ rest

-- `serveSnapshot` with the projects that the collector found: the state, and the projects it answers.
unfoldable pub serve_snapshot : Handler → Method → List Project → Handler × Result ℕ (List Project)
unfolding show_projects visible_projects
serve_snapshot handler method collected =
    if is_get method
    then (
      record handler { projects = show_projects handler.deleting_projects collected [] },
      ok (visible_projects handler.deleting_projects collected),
    )
    else (handler, err 405)

pub record DeleteRequest : Type 0 where
  pub path : Bytes
  pub confirmation : Bytes

-- `deleteProject` up to the call of the deleter: the path and the project to delete.
unfoldable pub admit_deletion : Handler → Request DeleteRequest → Result ℕ (Bytes × Project)
admit_deletion handler request = do
  authorize handler request
  refuse_if (not handler.has_deleter) 501
  payload ← decode_body request
  refuse_if (has payload.path handler.deleting_projects) 409
  project ← or_err (find payload.path handler.projects) 404
  refuse_if (not (bytes_eq payload.confirmation project.name)) 400
  ok (payload.path, project)

-- The project is hidden while it is deleted.
unfoldable pub hide_project : Handler → Bytes → Handler
hide_project handler path = record handler {
  deleting_projects = insert path tt handler.deleting_projects;
  projects = delete path handler.projects;
}

-- `deleteProject` behind the call of the deleter, which has deleted the project or has failed.
unfoldable pub end_deletion : Handler → Bytes → Project → Bool → Handler
end_deletion handler path project deleted =
    let deleting = delete path handler.deleting_projects in
    if deleted then record handler { deleting_projects = deleting } else record handler {
      deleting_projects = deleting;
      projects = insert path project handler.projects;
    }

-- `openProject` up to the call of the launcher: the path that it opens.
unfoldable pub admit_open : Handler → Request Bytes → Result ℕ Bytes
admit_open handler request = do
  authorize handler request
  path ← decode_body request
  refuse_if (not (has path handler.projects)) 404
  ok path
