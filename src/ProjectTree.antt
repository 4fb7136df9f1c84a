-- ===== src/ProjectTree.antt =====
-- `_build_project_tree_payload` of backend/app/services/project_service.py: one page of the entries of a
-- folder, from the rows of files in the order of their paths. The risk of a file, a float, is left out.
pub mod Pages
use cgraph.Prelude.{
  ℕ, ◌+◌, ◌*◌, Bool, true, false, not, ◌&&◌, ◌||◌, Option, none, some, List, [], ◌∷◌, ◌++◌, min,
  max, length, drop, take, leb, ltb, if◌then◌else◌,
}
use cgraph.Prelude.Rows.{any}
use cgraph.Text.{Text, codes, text_eq, starts_with, before_first, after_first}
use cgraph.Errors.{Result, ok, not_found, bad_request, raise_if, no_project, bad_limit, ◌>>◌}

pub record FileRow : Type 0 where
  pub path : Text
  pub language : Text
  pub loc : ℕ
  pub complexity : ℕ
  pub fan_in : ℕ
  pub fan_out : ℕ
  pub status : Text

-- by path and name, and the row of a file
pub data Entry : Type 0 where
  dir : Text → Text → Entry
  file : Text → FileRow → Entry

abbrev pub path_of : Entry → Text
path_of (dir path name) = path
path_of (file name row) = row.path

-- `path.split("/")[-1]`, with the text after the last slash that was read
abbrev pub last_segment_from : Text → Text → Text
last_segment_from seen [] = seen
last_segment_from seen (c ∷ s) =
    let after = last_segment_from [] s in
    let later = last_segment_from (seen ++ (c ∷ [])) s in
    elim (after_first b'/' (c ∷ [])) [ some rest ↦ after | none ↦ later ]

-- the path from the folder on, none where the row is passed over; the empty prefix counts as none
unfoldable pub relative : Text → Text → Option Text
unfolding text_eq starts_with
relative [] path = some path
relative (c ∷ prefix) path =
    if text_eq path (c ∷ prefix)
    then some (last_segment_from [] path)
    else if starts_with ((c ∷ prefix) ++ codes "/") path
    then some (drop (length (c ∷ prefix) + 1) path)
    else none

abbrev pub child_path : Text → Text → Text
child_path [] name = name
child_path (c ∷ prefix) name = (c ∷ prefix) ++ (codes "/" ++ name)

-- the entry at which a row stands, if there is one
unfoldable pub entry_of : Text → FileRow → Option Entry
unfolding relative before_first after_first
entry_of prefix row = elim row.path [
  | [] ↦ none
  | c ∷ s ↦ elim (relative prefix (c ∷ s)) [
    | none ↦ none
    | some [] ↦ none
    | some (d ∷ rel) ↦ elim (after_first b'/' (d ∷ rel)) [
      | some rest ↦
          let name = before_first b'/' (d ∷ rel) in some (dir (child_path prefix name) name)
      | none ↦ some (file (last_segment_from [] (c ∷ s)) row)
    ]
  ]
]

-- what the loop has: `seen` are the paths of the entries
pub record Page : Type 0 where
  pub entries : List Entry
  pub last_consumed_path : Option Text
  pub reached_limit : Bool
  pub has_next_unique_entry : Bool

abbrev pub has_path : Text → List Entry → Bool
has_path p es = any (λ e. text_eq p (path_of e)) es

-- `add_dir` and `add_file`
abbrev pub add_entry : Entry → List Entry → List Entry
add_entry e es = if has_path (path_of e) es then es else es ++ (e ∷ [])

-- the loop over the rows
unfoldable pub fill : Text → ℕ → List FileRow → Page → Page
unfolding entry_of
fill prefix limit [] page = page
fill prefix limit (row ∷ rows) page = elim (entry_of prefix row) [
  | none ↦ fill prefix limit rows page
  | some e ↦
      let passed =
        fill prefix limit rows
          (record page { last_consumed_path = some row.path; reached_limit = true }) in
      let added =
        fill prefix limit rows (record page {
          entries = add_entry e page.entries;
          last_consumed_path = some row.path;
        }) in
      if leb limit (length page.entries)
      then (if has_path (path_of e) page.entries
          then passed
          else record page { reached_limit = true; has_next_unique_entry = true })
      else added
]

pub record Payload : Type 0 where
  pub entries : List Entry
  pub next_cursor : Option Text
  pub truncated : Bool

abbrev pub empty_page : Page
empty_page = record {
  entries = [];
  last_consumed_path = none;
  reached_limit = false;
  has_next_unique_entry = false;
}

-- `_build_project_tree_payload`
unfoldable pub build_project_tree_payload : List FileRow → Text → ℕ → ℕ → Bool → Payload
unfolding fill
build_project_tree_payload rows prefix limit scan_limit has_more_rows =
    let page = fill prefix limit (take scan_limit rows) empty_page in
    let reached = page.reached_limit || leb limit (length page.entries) in
    let truncated = reached && (page.has_next_unique_entry || has_more_rows) in
    record {
      entries = page.entries;
      next_cursor = if truncated then page.last_consumed_path else none;
      truncated = truncated;
    }

abbrev pub scan_limit_of : ℕ → ℕ
scan_limit_of limit = min 20000 (max (limit * 40) (limit + 1))

-- `list_project_tree_entries_async` in a project that is there or is not; `rows` is what the query
-- answers before its LIMIT, for the prefix and the cursor.
unfoldable pub list_project_tree_entries : Bool → Text → ℕ → List FileRow → Result Payload
unfolding build_project_tree_payload
list_project_tree_entries has_project prefix limit rows =
    let scan_limit = scan_limit_of limit in
    let read = take (scan_limit + 1) rows in
    raise_if (not has_project) (not_found no_project)
    >> raise_if (ltb limit 1 || ltb 2000 limit) (bad_request bad_limit)
    >> ok (build_project_tree_payload read prefix limit scan_limit (ltb scan_limit (length read)))
