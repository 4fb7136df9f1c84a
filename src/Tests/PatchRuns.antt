-- ===== src/Tests/PatchRuns.antt =====
-- A run whose patch removes a file, on the project of Tests.Scan.
use cgraph.Prelude.{◌≡◌, refl, true, false, none, some, [], ◌∷◌}
use cgraph.Text.{codes, text_eq}
use cgraph.Patches.Apply.{under, content_of}
use cgraph.PatchRuns.{Env, Site, apply_patch_and_record}
use cgraph.PatchRuns.Ending.{apply_patch_and_record-others}
use cgraph.Tests.Scan.{env, graph_env, db, moment}

abbrev run_env : Env
run_env = record {
  require_in_context = true;
  allow_out_of_context_patch = false;
  allowed_patch_paths = codes "c" ∷ [];
  patch_set = λ text. some (record { path = codes "c"; is_removed_file = true; hunks = [] } ∷ []);
  patch = record {
    allowed_rel_paths = none;
    allow_new_files = false;
    resolve = under;
    is_other = λ p. false;
    splitlines = λ text. text ∷ [];
    is_python = λ p. false;
    parses = λ text. true;
    read_fails = λ p. false;
    make_fails = λ p. false;
    write_fails = λ p. false;
    remove_fails = λ p. false;
  };
  scan = env;
  graph = graph_env;
  first_moment = moment;
  second_moment = moment;
  is_locked = false;
  metrics_error = none;
  mark_error = none;
  contract_error = none;
  record_error = none;
}

abbrev site : Site
site = record {
  files =
      record { path = codes "b"; content = codes "x" }
      ∷ record { path = codes "c"; content = codes "y" }
      ∷ [];
  db = db;
  has_run = true;
  applied_json = none;
}

apply_patch_and_record-others_example :
    content_of (codes "b") (apply_patch_and_record run_env (codes "diff") site).1.files
    ≡ content_of (codes "b") site.files
unfolding text_eq
apply_patch_and_record-others_example =
    apply_patch_and_record-others run_env (codes "diff") site (codes "b") refl refl refl
