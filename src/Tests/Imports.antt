-- ===== src/Tests/Imports.antt =====
-- An import of an archive whose content another project has.
use cgraph.Prelude.{◌≡◌, refl, true, false, none, some, List, [], ◌∷◌, ◌==◌, if◌then◌else◌, arith}
use cgraph.Text.{codes, lower_ascii, text_eq}
use cgraph.Errors.{cancelled}
use cgraph.Snapshots
use cgraph.Snapshots.{tar, archive_ext}
use cgraph.Jobs.{Queue, TaskJob, pending}
use cgraph.Imports.{find_project_by_task_job, Root, Site, Env}
use cgraph.Imports.Task.{Reporting, snapshot_import_task}
use cgraph.Imports.Ending.{Ended, snapshot_import_task-Ended}
use cgraph.Imports.Sharing.{files_at, snapshot_import_task_clears}
use cgraph.Imports.Replay.{FailedWith, snapshot_import_task-replayed}

abbrev files : List Snapshots.Member
files = record { name = codes "a"; path = codes "a"; size = 3; is_file = true } ∷ []

abbrev env : Env
env = record {
  snapshot_max_bytes = 100;
  unpack = record {
    max_files = 9;
    max_unpacked_bytes = 100;
    max_file_bytes = 100;
    archive = some files;
    is_inside = λ name. true;
    write_fails = λ name. none;
  };
  move_error = none;
  upload_error = none;
  clone_error = none;
  insert_error = none;
  begin_refused = false;
  root_stays = false;
  snapshot_stays = false;
  staged_stays = false;
  cleanup_cancelled = false;
  staged_cancelled = false;
  new_root = 8;
  new_project = 2;
  others = λ ps. ps;
}

abbrev cut_off : Env
cut_off = record env { insert_error = some cancelled }

abbrev reporting : Reporting
reporting = record {
  now = 5;
  settings = record { completed_ttl = none; max_completed = some 9 };
  redis_fails = false;
  describe = λ e. codes "error";
  payload = λ e. (codes "{}", none);
  result = λ p. codes "{}";
}

abbrev old_root : Root
old_root = record { sha = 7; id = 1 }

abbrev job : TaskJob
job = record {
  id = 3;
  org_id = 1;
  status = pending;
  queue = Queue.medium;
  idempotency_key = none;
  result_json = none;
  error = none;
  error_json = none;
  created_at = 1;
  updated_at = 1;
  completed_at = none;
}

abbrev site : Site
site = record {
  store = record { jobs = job ∷ []; inflight = [] };
  projects =
      record { id = 1; org_id = 4; name = codes "old"; root_path = old_root; task_job_id = none }
      ∷ [];
  snapshots = [];
  disk = record {
    staged = λ path. if path == 6 then some (record { sha = 7; size = 10 }) else none;
    folders = λ sha.
        if sha == 7
        then some (record { repo = []; projects = record { id = 1; files = files } ∷ [] })
        else none;
  };
}

copied_before : files_at old_root site.disk ≡ some files
copied_before = refl

snapshot_import_task-Ended_example :
    Ended reporting 1 3
      (snapshot_import_task reporting cut_off (codes "new") (codes "a.tar") 6 1 3 site)
snapshot_import_task-Ended_example =
    snapshot_import_task-Ended reporting cut_off (codes "new") (codes "a.tar") 6 1 3 site refl
      (omega arith) refl refl

snapshot_import_task_clears_example :
    files_at old_root
      (snapshot_import_task reporting cut_off (codes "new") (codes "a.tar") 6 1 3 site).1.disk
    ≡ none
unfolding archive_ext text_eq lower_ascii find_project_by_task_job
snapshot_import_task_clears_example =
    snapshot_import_task_clears reporting cut_off (codes "new") (codes "a.tar") 6 1 3 site tar
      (record { sha = 7; size = 10 }) cancelled old_root refl (omega arith) refl refl refl refl refl
      refl refl refl refl refl

snapshot_import_task-replayed_example :
    FailedWith reporting 3
      (snapshot_import_task reporting env (codes "new") (codes "a.tar") 6 1 3 site).1.projects
      (snapshot_import_task reporting env
        (codes "new")
        (codes "a.tar")
        6
        1
        3
        (snapshot_import_task reporting env (codes "new") (codes "a.tar") 6 1 3 site).1)
snapshot_import_task-replayed_example =
    snapshot_import_task-replayed reporting reporting env env (codes "new") (codes "a.tar") 6 1 3
      site refl refl (omega arith) refl refl refl
