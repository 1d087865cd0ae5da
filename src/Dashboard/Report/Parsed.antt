-- ===== src/Dashboard/Report/Parsed.antt =====
-- The projects that a report is read to.
use otherhost.Base.Reordered.{IsReordered}
use otherhost.Base.{
  ◌≡◌, refl, sym, inl, inr, false, List, [], ◌∷◌, Option, none, some, All, All-append, Bool-cases,
  Option-cases, subst, Bytes,
}
use otherhost.Dashboard.Report.Applied.{apply_lines-described}
use otherhost.Dashboard.Report.Described.{described_projects, projects_of}
use otherhost.Dashboard.Report.Sorted.{
  All-sort_projects, IsSorted, sort_projects-IsReordered, sort_projects-IsSorted,
}
use otherhost.Dashboard.Report.{
  Inventory, ReportKey, WindowsInventory, apply_entry, apply_line, apply_lines, apply_parts,
  change_last, disk_available, disk_total, distribution, empty_inventory, finish_report, host_name,
  host_windows, kernel, key_named, key_names, memory, memory_available, new_project,
  or_remote_processor, other_key, parse_remote_report, path_base, processors, project_branch,
  project_path, project_technology, sort_projects, trim_line_ends, with_branch, with_technology,
}
use otherhost.Dashboard.Server.{Project}
use otherhost.Pairing.Names.{is_empty}
use otherhost.Text.Base64.{std_decode}
use otherhost.Text.Lines.{split_lines}
use otherhost.Text.Parts.{split_first}
use otherhost.Text.{trim_space}

-- A project is named after its directory, and none of its technologies is blank.
pub record IsListed (p : Project) : Type 0 where
  pub named : p.name ≡ path_base p.path
  pub technologies_given : All (λ t. is_empty t ≡ false) p.technologies

new_project-IsListed : (path : Bytes) → IsListed (new_project path)
new_project-IsListed path = record { named = refl; technologies_given = tt }

with_technology-IsListed :
    (value : Bytes) (p : Project) → IsListed p → IsListed (with_technology value p)
with_technology-IsListed value p h = elim (Bool-cases (is_empty value)) [
  | inl e ↦ rw e h
  | inr e ↦ rw e (record {
    named = h.named;
    technologies_given =
        All-append (λ t. is_empty t ≡ false) p.technologies (value ∷ []) h.technologies_given
          (e, tt);
  })
]

change_last-IsListed :
    (f : Project → Project) (projects : List Project)
    → ((p : Project) → IsListed p → IsListed (f p))
    → All IsListed projects
    → All IsListed (change_last f projects)
change_last-IsListed f [] k h = tt
change_last-IsListed f (p ∷ []) k h = (k p h.0, tt)
change_last-IsListed f (p ∷ q ∷ projects) k h = (h.0, change_last-IsListed f (q ∷ projects) k h.1)

-- What holds of the state behind a line, if the line is read.
abbrev ListsProjects : Option Inventory → Type 0
ListsProjects none = Unit {0}
ListsProjects (some s) = All IsListed s.projects

module _ (unmarshal : Bytes → Option WindowsInventory) where
  apply_entry-IsListed :
      (key : ReportKey) (value : Bytes) (s : Inventory)
      → All IsListed s.projects
      → All IsListed (apply_entry unmarshal key value s).projects
  unfolding apply_entry
  apply_entry-IsListed host_name value s h = h
  apply_entry-IsListed host_windows value s h = h
  apply_entry-IsListed distribution value s h = h
  apply_entry-IsListed kernel value s h = h
  apply_entry-IsListed processors value s h = h
  apply_entry-IsListed memory value s h = h
  apply_entry-IsListed memory_available value s h = h
  apply_entry-IsListed disk_total value s h = h
  apply_entry-IsListed disk_available value s h = h
  apply_entry-IsListed other_key value s h = h
  apply_entry-IsListed project_path value s h =
      All-append IsListed s.projects (new_project value ∷ []) h (new_project-IsListed value, tt)
  apply_entry-IsListed project_branch value s h =
      change_last-IsListed (with_branch value) s.projects
        (λ p l. record { named = l.named; technologies_given = l.technologies_given }) h
  apply_entry-IsListed project_technology value s h =
      change_last-IsListed (with_technology value) s.projects (with_technology-IsListed value) h

  apply_parts-ListsProjects :
      (parts : Option (Bytes × Bytes)) (s : Inventory)
      → All IsListed s.projects
      → ListsProjects (apply_parts unmarshal parts s)
  apply_parts-ListsProjects none s h = tt
  apply_parts-ListsProjects (some (key, value)) s h =
      elim (Option-cases (std_decode (trim_space value))) [
        | inl e ↦ rw e tt
        | inr (decoded, e) ↦ rw e (apply_entry-IsListed (key_named key key_names) decoded s h)
      ]

  apply_line-ListsProjects :
      (line : Bytes) (s : Inventory)
      → All IsListed s.projects
      → ListsProjects (apply_line unmarshal line s)
  unfolding apply_line
  apply_line-ListsProjects line s h = elim (Bool-cases (is_empty (trim_space line))) [
    | inl e ↦ rw e h
    | inr e ↦ rw e (apply_parts-ListsProjects (split_first b'\t' line) s h)
  ]

  apply_lines-ListsProjects :
      (lines : List Bytes) (s : Inventory)
      → All IsListed s.projects
      → ListsProjects (apply_lines unmarshal lines s)
  unfolding apply_lines
  apply_lines-ListsProjects [] s h = h
  apply_lines-ListsProjects (line ∷ lines) s h =
      let listed = apply_line-ListsProjects line s h in
      elim (Option-cases (apply_line unmarshal line s)) [
        | inl e ↦ rw (e, apply_lines) tt
        | inr (next, e) ↦
            rw (e, apply_lines)
              (apply_lines-ListsProjects lines next (subst ListsProjects e listed))
      ]

-- Beside the projects that the lines describe, if they can be read: a snapshot of sorted projects, all of
-- them listed, which are those described; or none if they cannot.
abbrev pub IsReport : (Bytes → Bytes) → Option (List Project) → Option Inventory → Type 0
IsReport to_lower none none = Unit {0}
IsReport to_lower (some described) (some s) =
    IsSorted to_lower s.projects
    × IsReordered described s.projects
    × All IsListed s.projects
    × (is_empty s.host.cpu.model ≡ false)
IsReport to_lower _ _ = ⊥

or_remote_processor-model :
    (s : Inventory) → is_empty (or_remote_processor s).host.cpu.model ≡ false
unfolding is_empty
or_remote_processor-model s = elim (Bool-cases (is_empty s.host.cpu.model)) [
  | inl e ↦ rw e refl
  | inr e ↦ rw e e
]

or_remote_processor-projects : (s : Inventory) → (or_remote_processor s).projects ≡ s.projects
or_remote_processor-projects s = elim (Bool-cases (is_empty s.host.cpu.model)) [
  | inl e ↦ rw e refl
  | inr e ↦ rw e refl
]

finish_report-IsReport :
    (to_lower : Bytes → Bytes) (o : Option Inventory)
    → ListsProjects o
    → IsReport to_lower (projects_of o) (finish_report to_lower o)
finish_report-IsReport to_lower none h = tt
finish_report-IsReport to_lower (some s) h =
    let same = or_remote_processor-projects s in
    (
      sort_projects-IsSorted to_lower (or_remote_processor s).projects,
      subst (λ ps. IsReordered s.projects (sort_projects to_lower ps)) (sym same)
          (sort_projects-IsReordered to_lower s.projects),
      subst (λ ps. All IsListed (sort_projects to_lower ps)) (sym same)
          (All-sort_projects to_lower IsListed s.projects h),
      or_remote_processor-model s,
    )

-- Whatever a remote host answers, and whatever the JSON decoder and the lower case are: the report is read
-- exactly if each line that is not blank has a tab and base64 behind it. Its projects are then those that
-- the lines describe, none lost and none added: one for each path line, with the branch and the
-- technologies that stand between this line and the next path line. They are in the order of their names
-- in lower case, each is named after the last part of its path and has no blank technology, and the
-- processor has a name.
pub parse_remote_report-IsReport :
    (to_lower : Bytes → Bytes) (unmarshal : Bytes → Option WindowsInventory) (report : Bytes)
    → IsReport to_lower
        (described_projects (split_lines (trim_line_ends report)))
        (parse_remote_report to_lower unmarshal report)
unfolding parse_remote_report
parse_remote_report-IsReport to_lower unmarshal report =
    let lines = split_lines (trim_line_ends report) in
    subst
      (λ described.
        IsReport to_lower described
          (finish_report to_lower (apply_lines unmarshal lines empty_inventory)))
      (apply_lines-described unmarshal lines)
      (finish_report-IsReport to_lower (apply_lines unmarshal lines empty_inventory)
        (apply_lines-ListsProjects unmarshal lines empty_inventory tt))
