-- ===== src/Tests/ProjectTree.antt =====
-- A folder with two files below it, one of them in a folder of its own.
use cgraph.Prelude.{◌≤◌, ◌≡◌, refl, true, false, ◌||◌, none, List, [], ◌∷◌, length, take}
use cgraph.Text.{Text, codes, text_eq, starts_with, before_first, after_first}
use cgraph.Errors.{ok}
use cgraph.ProjectTree.{
  FileRow, Payload, dir, file, relative, entry_of, fill, build_project_tree_payload,
  list_project_tree_entries,
}
use cgraph.ProjectTree.Pages.{is_unique, all_listed, build_project_tree_payload_lists}

abbrev row : Text → FileRow
row path = record {
  path = path;
  language = codes "python";
  loc = 1;
  complexity = 0;
  fan_in = 0;
  fan_out = 0;
  status = codes "new";
}

abbrev rows : List FileRow
rows = row (codes "a/b/c") ∷ row (codes "a/b/d") ∷ row (codes "a/e") ∷ []

abbrev listing : Payload
listing = record {
  entries = dir (codes "a/b") (codes "b") ∷ file (codes "e") (row (codes "a/e")) ∷ [];
  next_cursor = none;
  truncated = false;
}

listed : list_project_tree_entries true (codes "a") 3 rows ≡ ok listing
unfolding list_project_tree_entries build_project_tree_payload fill entry_of relative text_eq
    starts_with before_first after_first
listed = refl

build_project_tree_payload_lists_example :
    (length (build_project_tree_payload rows (codes "a") 1 9 false).entries ≤ 1)
    × (is_unique (build_project_tree_payload rows (codes "a") 1 9 false).entries ≡ true)
    × (((build_project_tree_payload rows (codes "a") 1 9 false).truncated
          || all_listed
              (codes "a")
              (take 9 rows)
              (build_project_tree_payload rows (codes "a") 1 9 false).entries)
        ≡ true)
build_project_tree_payload_lists_example =
    build_project_tree_payload_lists rows (codes "a") 1 9 false
