-- ===== src/Imports/Outcome.antt =====
-- An import that raises nothing has its project (backend/app/task_handlers.py,
-- backend/app/services/project_service.py).
use cgraph.Prelude.{
  ℕ, ◌≡◌, inl, inr, refl, Bool, true, ◌&&◌, some, List, [], ◌∷◌, ◌++◌, ◌==◌, arith, Option-cases,
}
use cgraph.Prelude.Rows.{first, any}
use cgraph.Text.{Text}
use cgraph.Errors.{Result, ok, err, Result-cases}
use cgraph.Imports.{
  Disk, Meta, Root, ProjectRow, Site, Env, store_snapshot_upload, create_project_from_snapshot,
  find_project_by_task_job, is_of_job, insert_project, then_insert, prepare_project_snapshot_root,
}
use cgraph.Imports.Task.{create_or_clean, import_archive}

-- Is there a project of the organisation and of the job?
abbrev pub has_project : ℕ → ℕ → List ProjectRow → Bool
has_project org_id job_id ps = any (λ p. p.org_id == org_id && is_of_job job_id p) ps

first-any :
    (f : ProjectRow → Bool) (ps : List ProjectRow) (p : ProjectRow)
    → first f ps ≡ some p
    → any f ps ≡ true
first-any f [] p h = absurd (ground arith)
first-any f (q ∷ ps) p h = ground (arith, first-any f ps p)

any-last :
    (f : ProjectRow → Bool) (ps : List ProjectRow) (p : ProjectRow)
    → f p ≡ true
    → any f (ps ++ (p ∷ [])) ≡ true
any-last f [] p h = ground arith
any-last f (q ∷ ps) p h = ground (arith, any-last f ps p)

-- A result without an exception has its project in the table.
abbrev pub is_backed : ℕ → ℕ → Result ProjectRow × Site → Bool
is_backed org_id job_id (err e, site) = true
is_backed org_id job_id (ok p, site) = has_project org_id job_id site.projects

eq_refl : (n : ℕ) → (n == n) ≡ true
eq_refl n = ground arith

insert_project_backed :
    (env : Env) (name : Text) (meta : Meta) (org_id job_id : ℕ) (root : Root) (site : Site)
    → is_backed org_id job_id (insert_project env name meta org_id job_id root site) ≡ true
unfolding insert_project find_project_by_task_job
insert_project_backed env name meta org_id job_id root site =
    let project : ProjectRow = record {
      id = env.new_project;
      org_id = org_id;
      name = name;
      root_path = root;
      task_job_id = some job_id;
    } in
    let of_job : ProjectRow → Bool = λ p. p.org_id == org_id && is_of_job job_id p in
    let put_last =
      any-last of_job site.projects project (ground (arith, eq_refl org_id, eq_refl job_id)) in
    elim (Option-cases (find_project_by_task_job org_id job_id site.projects)) [
      | inl missing ↦ ground (arith, missing, put_last)
      | inr (p, found) ↦ ground (arith, found, put_last, first-any of_job site.projects p found)
    ]

then_insert_backed :
    (env : Env) (name : Text) (meta : Meta) (org_id job_id : ℕ) (prepared : Result Root × Disk)
    (site : Site)
    → is_backed org_id job_id (then_insert env name meta org_id job_id prepared site) ≡ true
then_insert_backed env name meta org_id job_id (err e, disk) site = refl
then_insert_backed env name meta org_id job_id (ok root, disk) site =
    insert_project_backed env name meta org_id job_id root
      (record site { disk = disk; projects = env.others site.projects })

create_project_backed :
    (env : Env) (name : Text) (meta : Meta) (org_id job_id : ℕ) (site : Site)
    → is_backed org_id job_id (create_project_from_snapshot env name meta org_id job_id site) ≡ true
unfolding create_project_from_snapshot find_project_by_task_job
create_project_backed env name meta org_id job_id site =
    let of_job : ProjectRow → Bool = λ p. p.org_id == org_id && is_of_job job_id p in
    let prepared = prepare_project_snapshot_root env meta site.disk in
    elim (Option-cases (find_project_by_task_job org_id job_id site.projects)) [
      | inl missing ↦
          ground (arith, missing, then_insert_backed env name meta org_id job_id prepared site)
      | inr (p, found) ↦ ground (arith, found, first-any of_job site.projects p found)
    ]

create_or_clean_backed :
    (env : Env) (name : Text) (org_id job_id : ℕ) (stored : Result Meta × Disk) (site : Site)
    → is_backed org_id job_id (create_or_clean env name org_id job_id stored site) ≡ true
unfolding create_or_clean
create_or_clean_backed env name org_id job_id (err e, disk) site = refl
create_or_clean_backed env name org_id job_id (ok meta, disk) site =
    let site' = record site { disk = disk } in
    ground (
      arith,
      create_project_backed env name meta org_id job_id site',
      Result-cases (create_project_from_snapshot env name meta org_id job_id site').0,
    )

pub import_archive_backed :
    (env : Env) (name archive_name : Text) (path org_id job_id : ℕ) (site : Site)
    → is_backed org_id job_id (import_archive env name archive_name path org_id job_id site) ≡ true
unfolding import_archive
import_archive_backed env name archive_name path org_id job_id site = ground (
  arith,
  create_or_clean_backed env name org_id job_id
      (store_snapshot_upload env path archive_name site.disk) site,
)
