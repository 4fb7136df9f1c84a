-- ===== src/PatchRuns/Telling.antt =====
-- What is told of the application of a run's patch (backend/app/services/task_service.py).
use cgraph.Prelude.{◌≡◌, ◌⊎◌, Bool, true, false, some, List, [], map}
use cgraph.Text.{Text}
use cgraph.Errors.{Result, ok, err}
use cgraph.Patches
use cgraph.Patches.Apply
use cgraph.Patches.Apply.{File, content_of, Change, path_of}
use cgraph.Patches.Atomic.{is_late}
use cgraph.Patches.Written.{left_by}
use cgraph.Scan.Attempts.{distinct}
use cgraph.PatchRuns.{Applied, failed, success, partial, Refusal, refused, Site}

-- Is it a failure to write or to remove, which comes after the first change?
abbrev pub is_late_refusal : Refusal → Bool
is_late_refusal (refused e) = is_late e
is_late_refusal _ = false

-- The files are what these changes leave, and these are their paths.
abbrev pub Changed : List Text → List File → List File → Type 0
Changed modified files files' =
    (cs : List Change) × ((modified ≡ distinct [] (map path_of cs))
      × ((q : Text) → content_of q files' ≡ left_by q cs (content_of q files)))

-- What the result says of the files and the tables.
abbrev pub Told : Site → Result Applied × Site → Type 0
Told site (err e, site') =
    (site'.db ≡ site.db) ⊎ ((modified : List Text) × Changed modified site.files site'.files)
Told site (ok (failed why), site') =
    (site'.db ≡ site.db) × ((is_late_refusal why ≡ true) ⊎ (site'.files ≡ site.files))
Told site (ok (success modified), site') = Changed modified site.files site'.files
Told site (ok (partial modified why), site') = Changed modified site.files site'.files

-- Does the row of the run, if there is one, hold the result? After an exception it is as it was.
abbrev pub Noted : Site → Result Applied × Site → Type 0
Noted site (err e, site') = site'.applied_json ≡ site.applied_json
Noted site (ok applied, site') = (site'.has_run ≡ false) ⊎ (site'.applied_json ≡ some applied)

abbrev IsTold : Site → Result Applied × Site → Type 0
IsTold site result = Told site result × Noted site result
