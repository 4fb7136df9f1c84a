-- ===== src/ProjectTree/Pages.antt =====
-- What a page of a folder has (backend/app/services/project_service.py).
use cgraph.Prelude.{
  ℕ, ◌+◌, ◌≤◌, ◌<◌, ◌≡◌, inl, inr, refl, Bool, true, false, not, ◌&&◌, ◌||◌, none, some, List, [],
  ◌∷◌, ◌++◌, length, length-append, take, leb, arith, Option-cases,
}
use cgraph.Text.{Text, text_eq}
use cgraph.Text.Strip.{text_eq_refl, text_eq_swap}
use cgraph.Errors.{ok}
use cgraph.ProjectTree.{
  FileRow, Entry, path_of, entry_of, Page, has_path, add_entry, fill, empty_page,
  build_project_tree_payload, Payload, scan_limit_of, list_project_tree_entries,
}

has_path-append :
    (p : Text) (es : List Entry) (e : Entry)
    → has_path p (es ++ (e ∷ [])) ≡ (has_path p es || text_eq p (path_of e))
has_path-append p [] e = ground arith
has_path-append p (x ∷ es) e = ground (arith, has_path-append p es e)

-- no two entries with one path
abbrev pub is_unique : List Entry → Bool
is_unique [] = true
is_unique (e ∷ es) = not (has_path (path_of e) es) && is_unique es

is_unique-append :
    (es : List Entry) (e : Entry)
    → is_unique es ≡ true
    → has_path (path_of e) es ≡ false
    → is_unique (es ++ (e ∷ [])) ≡ true
is_unique-append [] e h n = ground arith
is_unique-append (x ∷ es) e h n = ground (
  arith,
  has_path-append (path_of x) es e,
  text_eq_swap (path_of e) (path_of x),
  is_unique-append es e,
)

is_unique-add_entry :
    (e : Entry) (es : List Entry) → is_unique es ≡ true → is_unique (add_entry e es) ≡ true
is_unique-add_entry e es h = ground (arith, is_unique-append es e)

has_path-add_entry :
    (p : Text) (e : Entry) (es : List Entry)
    → has_path p es ≡ true
    → has_path p (add_entry e es) ≡ true
has_path-add_entry p e es h = ground (arith, has_path-append p es e)

has_path-added : (e : Entry) (es : List Entry) → has_path (path_of e) (add_entry e es) ≡ true
has_path-added e es = ground (arith, has_path-append (path_of e) es e, text_eq_refl (path_of e))

length-add_entry :
    (e : Entry) (es : List Entry) (limit : ℕ)
    → leb limit (length es) ≡ false
    → length (add_entry e es) ≤ limit
length-add_entry e es limit h = ground (arith, length-append es (e ∷ []))

fill-length :
    (prefix : Text) (limit : ℕ) (rows : List FileRow) (page : Page)
    → length page.entries ≤ limit
    → length (fill prefix limit rows page).entries ≤ limit
unfolding fill
fill-length prefix limit [] page h = h
fill-length prefix limit (row ∷ rows) page h = elim (Option-cases (entry_of prefix row)) [
  | inl nothing ↦ ground (arith, fill-length prefix limit rows page)
  | inr (e, found) ↦ ground (
    arith,
    length-add_entry e page.entries limit,
    fill-length prefix limit rows
        (record page { last_consumed_path = some row.path; reached_limit = true }),
    fill-length prefix limit rows
        (record page { entries = add_entry e page.entries; last_consumed_path = some row.path }),
  )
]

fill-is_unique :
    (prefix : Text) (limit : ℕ) (rows : List FileRow) (page : Page)
    → is_unique page.entries ≡ true
    → is_unique (fill prefix limit rows page).entries ≡ true
unfolding fill
fill-is_unique prefix limit [] page h = h
fill-is_unique prefix limit (row ∷ rows) page h = elim (Option-cases (entry_of prefix row)) [
  | inl nothing ↦ ground (arith, fill-is_unique prefix limit rows page)
  | inr (e, found) ↦ ground (
    arith,
    is_unique-add_entry e page.entries,
    fill-is_unique prefix limit rows
        (record page { last_consumed_path = some row.path; reached_limit = true }),
    fill-is_unique prefix limit rows
        (record page { entries = add_entry e page.entries; last_consumed_path = some row.path }),
  )
]

fill-has_path :
    (prefix : Text) (limit : ℕ) (rows : List FileRow) (page : Page) (p : Text)
    → has_path p page.entries ≡ true
    → has_path p (fill prefix limit rows page).entries ≡ true
unfolding fill
fill-has_path prefix limit [] page p h = h
fill-has_path prefix limit (row ∷ rows) page p h = elim (Option-cases (entry_of prefix row)) [
  | inl nothing ↦ ground (arith, fill-has_path prefix limit rows page p)
  | inr (e, found) ↦ ground (
    arith,
    has_path-add_entry p e page.entries,
    fill-has_path prefix limit rows
        (record page { last_consumed_path = some row.path; reached_limit = true }) p,
    fill-has_path prefix limit rows
        (record page { entries = add_entry e page.entries; last_consumed_path = some row.path }) p,
  )
]

-- a break comes only at the limit
fill-full :
    (prefix : Text) (limit : ℕ) (rows : List FileRow) (page : Page)
    → (not page.has_next_unique_entry || leb limit (length page.entries)) ≡ true
    → (not (fill prefix limit rows page).has_next_unique_entry
        || leb limit (length (fill prefix limit rows page).entries))
      ≡ true
unfolding fill
fill-full prefix limit [] page h = h
fill-full prefix limit (row ∷ rows) page h = elim (Option-cases (entry_of prefix row)) [
  | inl nothing ↦ ground (arith, fill-full prefix limit rows page)
  | inr (e, found) ↦ ground (
    arith,
    fill-full prefix limit rows
        (record page { last_consumed_path = some row.path; reached_limit = true }),
    fill-full prefix limit rows
        (record page { entries = add_entry e page.entries; last_consumed_path = some row.path }),
  )
]

-- the mark that the limit is reached comes only there too
fill-reached :
    (prefix : Text) (limit : ℕ) (rows : List FileRow) (page : Page)
    → (not page.reached_limit || leb limit (length page.entries)) ≡ true
    → (not (fill prefix limit rows page).reached_limit
        || leb limit (length (fill prefix limit rows page).entries))
      ≡ true
unfolding fill
fill-reached prefix limit [] page h = h
fill-reached prefix limit (row ∷ rows) page h = elim (Option-cases (entry_of prefix row)) [
  | inl nothing ↦ ground (arith, fill-reached prefix limit rows page)
  | inr (e, found) ↦ ground (
    arith,
    fill-reached prefix limit rows
        (record page { last_consumed_path = some row.path; reached_limit = true }),
    fill-reached prefix limit rows
        (record page { entries = add_entry e page.entries; last_consumed_path = some row.path }),
  )
]

-- Is every row that has an entry listed?
abbrev pub all_listed : Text → List FileRow → List Entry → Bool
all_listed prefix [] es = true
all_listed prefix (row ∷ rows) es =
    elim (entry_of prefix row) [ none ↦ true | some e ↦ has_path (path_of e) es ]
    && all_listed prefix rows es

fill-all_listed :
    (prefix : Text) (limit : ℕ) (rows : List FileRow) (page : Page)
    → ((fill prefix limit rows page).has_next_unique_entry
        || all_listed prefix rows (fill prefix limit rows page).entries)
      ≡ true
unfolding fill
fill-all_listed prefix limit [] page = ground arith
fill-all_listed prefix limit (row ∷ rows) page = elim (Option-cases (entry_of prefix row)) [
  | inl nothing ↦ ground (arith, fill-all_listed prefix limit rows page)
  | inr (e, found) ↦
      let passed : Page = record page {
        last_consumed_path = some row.path;
        reached_limit = true;
      } in
      let added : Page = record page {
        entries = add_entry e page.entries;
        last_consumed_path = some row.path;
      } in
      ground (
        arith,
        has_path-added e page.entries,
        fill-all_listed prefix limit rows passed,
        fill-all_listed prefix limit rows added,
        fill-has_path prefix limit rows passed (path_of e),
        fill-has_path prefix limit rows added (path_of e),
      )
]

-- A page has at most as many entries as the limit, no path twice, and, unless it is truncated, an entry
-- for every row that was scanned and has one.
pub build_project_tree_payload_lists :
    (rows : List FileRow) (prefix : Text) (limit scan_limit : ℕ) (more : Bool)
    → (length (build_project_tree_payload rows prefix limit scan_limit more).entries ≤ limit)
      × (is_unique (build_project_tree_payload rows prefix limit scan_limit more).entries ≡ true)
      × (((build_project_tree_payload rows prefix limit scan_limit more).truncated
            || all_listed prefix
                (take scan_limit rows)
                (build_project_tree_payload rows prefix limit scan_limit more).entries)
          ≡ true)
unfolding build_project_tree_payload
build_project_tree_payload_lists rows prefix limit scan_limit more =
    let scanned = take scan_limit rows in
    let bounded = fill-length prefix limit scanned empty_page (ground arith) in
    let unique = fill-is_unique prefix limit scanned empty_page refl in
    let full = fill-full prefix limit scanned empty_page refl in
    let listed = fill-all_listed prefix limit scanned empty_page in (bounded, unique, ground arith)

-- A page with fewer entries than the limit is not truncated and has no cursor, also where more rows
-- follow than were scanned.
list_project_tree_entries_short :
    (prefix : Text) (limit : ℕ) (rows : List FileRow) (payload : Payload)
    → list_project_tree_entries true prefix limit rows ≡ ok payload
    → length payload.entries < limit
    → (payload.truncated ≡ false) × (payload.next_cursor ≡ none)
unfolding list_project_tree_entries build_project_tree_payload
list_project_tree_entries_short prefix limit rows payload h short =
    let scanned = take (scan_limit_of limit) (take (scan_limit_of limit + 1) rows) in
    ground (arith, fill-reached prefix limit scanned empty_page refl)
