-- ===== src/Dashboard/Report/Applied.antt =====
-- The report is read line by line to the projects that its lines describe.
use otherhost.Base.{
  ◌≡◌, refl, sym, ap, ◌∙◌, inl, inr, Bool, true, false, List, [], ◌∷◌, ◌++◌, Option, none, some,
  arith, append_assoc, append-nil, Bool-cases, Option-cases, Bytes, bytes_eq, bytes_eq_iff, codes,
}
use otherhost.Dashboard.Report.{
  Inventory, ReportKey, WindowsInventory, apply_entry, apply_line, apply_lines, apply_parts,
  change_last, disk_available, disk_total, distribution, empty_inventory, host_name, host_windows,
  kernel, key_named, key_names, memory, memory_available, new_project, other_key, processors,
  project_branch, project_path, project_technology, with_branch, with_technology,
}
use otherhost.Dashboard.Report.Described.{
  Described, add_given, describe_before, describe_entry, describe_lines, describe_parts,
  described_projects, or_last, projects_of,
}
use otherhost.Dashboard.Server.{Project}
use otherhost.Pairing.Names.{is_empty}
use otherhost.Text.Base64.{std_decode}
use otherhost.Text.Parts.{split_first}
use otherhost.Text.{trim_space}

-- The projects that were read before, with what is described behind them.
abbrev finish_project : Described → Project → Project
finish_project d p = record p {
  branch = or_last p.branch d.branch;
  technologies = p.technologies ++ d.technologies;
}

abbrev behind : List Project → Described → List Project
behind projects d = change_last (finish_project d) projects ++ d.projects

abbrev projects_behind : List Project → Option Described → Option (List Project)
projects_behind projects none = none
projects_behind projects (some d) = some (behind projects d)

change_last-append :
    (f : Project → Project) (ps : List Project) (p : Project)
    → change_last f (ps ++ (p ∷ [])) ≡ ps ++ (f p ∷ [])
change_last-append f [] p = refl
change_last-append f (q ∷ []) p = refl
change_last-append f (q ∷ r ∷ ps) p = ap (◌∷◌ q) (change_last-append f (r ∷ ps) p)

change_last-change_last :
    (f g h : Project → Project)
    → ((p : Project) → f (g p) ≡ h p)
    → (ps : List Project) → change_last f (change_last g ps) ≡ change_last h ps
change_last-change_last f g h e [] = refl
change_last-change_last f g h e (p ∷ []) = ap (λ x. x ∷ []) (e p)
change_last-change_last f g h e (p ∷ q ∷ []) = ap (λ x. p ∷ x ∷ []) (e q)
change_last-change_last f g h e (p ∷ q ∷ r ∷ ps) =
    ap (◌∷◌ p) (change_last-change_last f g h e (q ∷ r ∷ ps))

change_last-unchanged :
    (f : Project → Project)
    → ((p : Project) → f p ≡ p)
    → (ps : List Project) → change_last f ps ≡ ps
change_last-unchanged f e [] = refl
change_last-unchanged f e (p ∷ []) = ap (λ x. x ∷ []) (e p)
change_last-unchanged f e (p ∷ q ∷ ps) = ap (◌∷◌ p) (change_last-unchanged f e (q ∷ ps))

named_path :
    (key : Bytes)
    → bytes_eq (codes "project.path") key ≡ true
    → key_named key key_names ≡ project_path
unfolding bytes_eq
named_path key e = rw (← (bytes_eq_iff (codes "project.path") key).0 e) refl

named_branch :
    (key : Bytes)
    → bytes_eq (codes "project.branch") key ≡ true
    → key_named key key_names ≡ project_branch
unfolding bytes_eq
named_branch key e = rw (← (bytes_eq_iff (codes "project.branch") key).0 e) refl

named_technology :
    (key : Bytes)
    → bytes_eq (codes "project.technology") key ≡ true
    → key_named key key_names ≡ project_technology
unfolding bytes_eq
named_technology key e = rw (← (bytes_eq_iff (codes "project.technology") key).0 e) refl

abbrev is_of_project : ReportKey → Bool
is_of_project project_path = true
is_of_project project_branch = true
is_of_project project_technology = true
is_of_project _ = false

named_other :
    (key : Bytes)
    → bytes_eq (codes "project.path") key ≡ false
    → bytes_eq (codes "project.branch") key ≡ false
    → bytes_eq (codes "project.technology") key ≡ false
    → is_of_project (key_named key key_names) ≡ false
named_other key p b t = ground arith

describe_entry_other :
    (key value : Bytes) (d : Described)
    → bytes_eq (codes "project.path") key ≡ false
    → bytes_eq (codes "project.branch") key ≡ false
    → bytes_eq (codes "project.technology") key ≡ false
    → describe_entry key value d ≡ d
describe_entry_other key value d p b t = rw (p, b, t) refl

module _ (unmarshal : Bytes → Option WindowsInventory) where
  apply_entry-other :
      (key : ReportKey) (value : Bytes) (s : Inventory)
      → is_of_project key ≡ false
      → (apply_entry unmarshal key value s).projects ≡ s.projects
  unfolding apply_entry
  apply_entry-other host_name value s h = refl
  apply_entry-other host_windows value s h = refl
  apply_entry-other distribution value s h = refl
  apply_entry-other kernel value s h = refl
  apply_entry-other processors value s h = refl
  apply_entry-other memory value s h = refl
  apply_entry-other memory_available value s h = refl
  apply_entry-other disk_total value s h = refl
  apply_entry-other disk_available value s h = refl
  apply_entry-other other_key value s h = refl
  apply_entry-other project_path value s h = cc
  apply_entry-other project_branch value s h = cc
  apply_entry-other project_technology value s h = cc

  finish_project_empty :
      (ds : List Project) (p : Project)
      → finish_project (record { branch = none; technologies = []; projects = ds }) p ≡ p
  finish_project_empty ds p = ap (λ t. record p { technologies = t }) (append-nil p.technologies)

  path-behind :
      (value : Bytes) (ps : List Project) (d : Described)
      → behind (ps ++ (new_project value ∷ [])) d
        ≡ change_last
            (finish_project (record { branch = none; technologies = []; projects = d.projects }))
            ps
          ++ (finish_project d (new_project value) ∷ d.projects)
  path-behind value ps d =
      ap (λ x. x ++ d.projects) (change_last-append (finish_project d) ps (new_project value))
      ∙ append_assoc ps (finish_project d (new_project value) ∷ []) d.projects
      ∙ ap (λ x. x ++ (finish_project d (new_project value) ∷ d.projects))
          (sym (
            change_last-unchanged
              (finish_project (record { branch = none; technologies = []; projects = d.projects }))
              (finish_project_empty d.projects) ps))

  branch-finished :
      (value : Bytes) (d : Described) (p : Project)
      → finish_project d (with_branch value p)
        ≡ finish_project (record d { branch = some (or_last value d.branch) }) p
  branch-finished value d p = elim (Option-cases d.branch) [
    | inl e ↦ rw e refl
    | inr (later, e) ↦ rw e refl
  ]

  technology-finished :
      (value : Bytes) (d : Described) (p : Project)
      → finish_project d (with_technology value p)
        ≡ finish_project (record d { technologies = add_given value d.technologies }) p
  technology-finished value d p = elim (Bool-cases (is_empty value)) [
    | inl e ↦ rw e refl
    | inr e ↦ rw e (
        ap (λ t. record p { branch = or_last p.branch d.branch; technologies = t })
          (append_assoc p.technologies (value ∷ []) d.technologies))
  ]

  apply_entry-behind :
      (key value : Bytes) (s : Inventory) (d : Described)
      → behind (apply_entry unmarshal (key_named key key_names) value s).projects d
        ≡ behind s.projects (describe_entry key value d)
  unfolding apply_entry
  apply_entry-behind key value s d = elim (Bool-cases (bytes_eq (codes "project.path") key)) [
    | inl p ↦ rw (named_path key p, p) (path-behind value s.projects d)
    | inr p ↦ elim (Bool-cases (bytes_eq (codes "project.branch") key)) [
      | inl b ↦
          rw (named_branch key b, p, b)
            (ap (λ x. x ++ d.projects)
              (change_last-change_last (finish_project d) (with_branch value)
                (finish_project (record d { branch = some (or_last value d.branch) }))
                (branch-finished value d) s.projects))
      | inr b ↦ elim (Bool-cases (bytes_eq (codes "project.technology") key)) [
        | inl t ↦
            rw (named_technology key t, p, b, t)
              (ap (λ x. x ++ d.projects)
                (change_last-change_last (finish_project d) (with_technology value)
                  (finish_project (record d { technologies = add_given value d.technologies }))
                  (technology-finished value d) s.projects))
        | inr t ↦
            ap (λ ps. behind ps d)
              (apply_entry-other (key_named key key_names) value s (named_other key p b t))
            ∙ ap (behind s.projects) (sym (describe_entry_other key value d p b t))
      ]
    ]
  ]

  abbrev next_behind : Option Inventory → Option Described → Option (List Project)
  next_behind none d = none
  next_behind (some next) d = projects_behind next.projects d

  apply_parts-behind :
      (parts : Option (Bytes × Bytes)) (s : Inventory) (d : Described)
      → next_behind (apply_parts unmarshal parts s) (some d)
        ≡ projects_behind s.projects (describe_parts parts d)
  apply_parts-behind none s d = refl
  apply_parts-behind (some (key, value)) s d = elim (Option-cases (std_decode (trim_space value))) [
    | inl e ↦ rw e refl
    | inr (decoded, e) ↦ rw e (ap some (apply_entry-behind key decoded s d))
  ]

  next_behind-none : (next : Option Inventory) → next_behind next none ≡ none
  next_behind-none none = refl
  next_behind-none (some s) = refl

  apply_line-behind :
      (line : Bytes) (s : Inventory) (d : Option Described)
      → next_behind (apply_line unmarshal line s) d
        ≡ projects_behind s.projects (describe_before line d)
  unfolding apply_line
  apply_line-behind line s none = next_behind-none (apply_line unmarshal line s)
  apply_line-behind line s (some d) = elim (Bool-cases (is_empty (trim_space line))) [
    | inl e ↦ rw e refl
    | inr e ↦ rw e (apply_parts-behind (split_first b'\t' line) s d)
  ]

  pub apply_lines-behind :
      (lines : List Bytes) (s : Inventory)
      → projects_of (apply_lines unmarshal lines s)
        ≡ projects_behind s.projects (describe_lines lines)
  unfolding apply_lines describe_lines
  apply_lines-behind [] s = ap some (
      sym (
        append-nil _
        ∙ change_last-unchanged
            (finish_project (record { branch = none; technologies = []; projects = [] }))
            (finish_project_empty []) s.projects))
  apply_lines-behind (line ∷ lines) s =
      let here = apply_line-behind line s (describe_lines lines) in
      elim (Option-cases (apply_line unmarshal line s)) [
        | inl e ↦ rw (e, apply_lines) (rw e at here)
        | inr (next, e) ↦ rw (e, apply_lines) (apply_lines-behind lines next ∙ (rw e at here))
      ]

  -- From the start of a report, the projects are those described.
  pub apply_lines-described :
      (lines : List Bytes)
      → projects_of (apply_lines unmarshal lines empty_inventory) ≡ described_projects lines
  unfolding described_projects
  apply_lines-described lines = elim (Option-cases (describe_lines lines)) [
    | inl e ↦
        apply_lines-behind lines empty_inventory
        ∙ ap (projects_behind []) e
        ∙ rw (e, described_projects) refl
    | inr (d, e) ↦
        apply_lines-behind lines empty_inventory
        ∙ ap (projects_behind []) e
        ∙ rw (e, described_projects) refl
  ]
