-- ===== src/Scan/Degrees.antt =====
-- The degrees of the files after a scan and the incremental update of the metrics (backend/app/scan.py,
-- backend/app/graph.py, backend/app/services/file_mutation_service.py).
use cgraph.Prelude.{
  ◌+◌, ◌≡◌, inl, inr, refl, ◌∙◌, Bool, true, false, not, ◌&&◌, ◌||◌, List, [], ◌∷◌, ◌++◌, length,
  if◌then◌else◌, arith, Bool-cases,
}
use cgraph.Prelude.Rows.{select, any}
use cgraph.Text.{Text, text_eq}
use cgraph.Text.Strip.{text_eq_iff, text_eq_refl}
use cgraph.Graph.{
  FileEdge, is_empty, has, in_degree, out_degree, ends_of, touches, same_edge,
  fetch_edges_for_paths,
}
use cgraph.Graph.Closure.{has-append, fetch_chunks-any}
use cgraph.Graph.Incremental.{affected_paths}
use cgraph.Scan.Parsing.{is_touched, same_key}
use cgraph.Scan.Writing.{insert_edges}

-- the edges that the deletions leave
abbrev pub kept : List Text → List Text → List FileEdge → List FileEdge
kept present removed edges =
    select (λ e. not (has e.src_path present))
      (select (λ e. not (has e.src_path removed || has e.dst_path removed)) edges)

-- A path that no deleted edge has keeps its degrees.
kept_degrees :
    (p : Text) (present removed : List Text) (edges : List FileEdge)
    → has p (ends_of (select (is_touched present removed) edges)) ≡ false
    → (in_degree p (kept present removed edges) ≡ in_degree p edges)
      × (out_degree p (kept present removed edges) ≡ out_degree p edges)
kept_degrees p present removed [] h = (refl, refl)
kept_degrees p present removed (e ∷ edges) h = ground (arith, kept_degrees p present removed edges)

degree-append :
    (p : Text) (edges : List FileEdge) (e : FileEdge)
    → (in_degree p (edges ++ (e ∷ []))
        ≡ in_degree p edges + (if text_eq p e.dst_path then 1 else 0))
      × (out_degree p (edges ++ (e ∷ []))
          ≡ out_degree p edges + (if text_eq p e.src_path then 1 else 0))
degree-append p [] e = ground arith
degree-append p (f ∷ edges) e = ground (arith, degree-append p edges e)

insert_edges_degrees :
    (p : Text) (es edges : List FileEdge)
    → has p (ends_of es) ≡ false
    → (in_degree p (insert_edges es edges) ≡ in_degree p edges)
      × (out_degree p (insert_edges es edges) ≡ out_degree p edges)
unfolding insert_edges
insert_edges_degrees p [] edges h = (refl, refl)
insert_edges_degrees p (e ∷ es) edges h =
    let edges' = if any (same_key e) edges then edges else edges ++ (e ∷ []) in
    ground (arith, degree-append p edges e, insert_edges_degrees p es edges')

any_same-append :
    (e : FileEdge) (edges : List FileEdge) (f : FileEdge)
    → any (same_edge e) (edges ++ (f ∷ [])) ≡ (any (same_edge e) edges || same_edge e f)
any_same-append e [] f = ground arith
any_same-append e (g ∷ edges) f = ground (arith, any_same-append e edges f)

any_same-of_key :
    (e : FileEdge) (edges : List FileEdge)
    → any (same_key e) edges ≡ true
    → any (same_edge e) edges ≡ true
any_same-of_key e [] h = absurd (ground arith)
any_same-of_key e (f ∷ edges) h = ground (arith, any_same-of_key e edges)

insert_edges-keeps :
    (e : FileEdge) (es edges : List FileEdge)
    → any (same_edge e) edges ≡ true
    → any (same_edge e) (insert_edges es edges) ≡ true
unfolding insert_edges
insert_edges-keeps e [] edges h = h
insert_edges-keeps e (f ∷ es) edges h =
    let edges' = if any (same_key f) edges then edges else edges ++ (f ∷ []) in
    ground (arith, any_same-append e edges f, insert_edges-keeps e es edges')

-- Is each of these edges there, with its source among the paths?
abbrev all_there : List Text → List FileEdge → List FileEdge → Bool
all_there paths [] edges = true
all_there paths (e ∷ es) edges =
    (has e.src_path paths && any (same_edge e) edges) && all_there paths es edges

abbrev pub all_from : List Text → List FileEdge → Bool
all_from paths [] = true
all_from paths (e ∷ es) = has e.src_path paths && all_from paths es

insert_edges_there :
    (paths : List Text) (es edges : List FileEdge)
    → all_from paths es ≡ true
    → all_there paths es (insert_edges es edges) ≡ true
unfolding insert_edges
insert_edges_there paths [] edges h = refl
insert_edges_there paths (e ∷ es) edges h =
    let edges' = if any (same_key e) edges then edges else edges ++ (e ∷ []) in
    ground (
      arith,
      any_same-append e edges e,
      any_same-of_key e edges,
      text_eq_refl e.src_path,
      text_eq_refl e.dst_path,
      insert_edges-keeps e es edges',
      insert_edges_there paths es edges',
    )

-- A path that is no end of the fetched edges is no end of an edge among them.
same_edge_clear :
    (p : Text) (e : FileEdge) (edges : List FileEdge)
    → has p (ends_of edges) ≡ false
    → any (same_edge e) edges ≡ true
    → (text_eq p e.src_path ≡ false) × (text_eq p e.dst_path ≡ false)
same_edge_clear p e [] h a = absurd (ground arith)
same_edge_clear p e (f ∷ edges) h a = elim (Bool-cases (same_edge e f)) [
  | inl same ↦
      let src : e.src_path ≡ f.src_path = (text_eq_iff e.src_path f.src_path).0 (ground arith) in
      let dst : e.dst_path ≡ f.dst_path = (text_eq_iff e.dst_path f.dst_path).0 (ground arith) in
      ground (arith, src, dst)
  | inr other ↦ ground (arith, same_edge_clear p e edges)
]

fetch-any :
    (e : FileEdge) (edges : List FileEdge) (paths : List Text)
    → any (same_edge e) edges ≡ true
    → touches paths e ≡ true
    → any (same_edge e) (fetch_edges_for_paths edges paths) ≡ true
unfolding fetch_edges_for_paths
fetch-any e edges paths h t = fetch_chunks-any (length paths) 399 e edges paths h t (omega arith)

new_clear :
    (p : Text) (paths : List Text) (es edges : List FileEdge)
    → all_there paths es edges ≡ true
    → has p (ends_of (fetch_edges_for_paths edges paths)) ≡ false
    → has p (ends_of es) ≡ false
new_clear p paths [] edges h c = refl
new_clear p paths (e ∷ es) edges h c = ground (
  arith,
  fetch-any e edges paths,
  same_edge_clear p e (fetch_edges_for_paths edges paths),
  new_clear p paths es edges,
)

has-named :
    (p : Text) (ps : List Text)
    → is_empty p ≡ false
    → has p (select (λ q. not (is_empty q)) ps) ≡ has p ps
has-named p [] h = refl
has-named p (q ∷ ps) h = elim (Bool-cases (text_eq p q)) [
  | inl same ↦ let e : p ≡ q = (text_eq_iff p q).0 same in ground (arith, e, has-named p ps)
  | inr differs ↦ ground (arith, has-named p ps)
]

-- Is every one of the paths among the others?
abbrev pub all_in : List Text → List Text → Bool
all_in [] paths = true
all_in (p ∷ ps) paths = has p paths && all_in ps paths

-- What a scan that puts edges of some paths leaves: a path that is not affected keeps its degrees.
pub written_degrees :
    (p : Text) (normalized present removed : List Text) (es edges : List FileEdge)
    → all_from normalized es ≡ true
    → is_empty p ≡ false
    → has p (
        affected_paths normalized
          (select (λ q. not (is_empty q)) (ends_of (select (is_touched present removed) edges)))
          (insert_edges es (kept present removed edges)))
      ≡ false
    → (in_degree p (insert_edges es (kept present removed edges)) ≡ in_degree p edges)
      × (out_degree p (insert_edges es (kept present removed edges)) ≡ out_degree p edges)
unfolding affected_paths
written_degrees p normalized present removed es edges from named clear =
    let lost = ends_of (select (is_touched present removed) edges) in
    let after = insert_edges es (kept present removed edges) in
    let ends = ends_of (fetch_edges_for_paths after normalized) in
    let named_lost = select (λ q. not (is_empty q)) lost in
    let named_ends = select (λ q. not (is_empty q)) ends in
    let one = has-append p normalized (select (λ q. not (is_empty q)) named_lost ++ named_ends) in
    let two = has-append p (select (λ q. not (is_empty q)) named_lost) named_ends in
    let no_loss : has p lost ≡ false =
      ground (arith, one, two, has-named p named_lost named, has-named p lost named) in
    let no_end : has p ends ≡ false = ground (arith, one, two, has-named p ends named) in
    let there = insert_edges_there normalized es (kept present removed edges) from in
    let (in_kept, out_kept) = kept_degrees p present removed edges no_loss in
    let (in_new, out_new) =
      insert_edges_degrees p es (kept present removed edges)
        (new_clear p normalized es after there no_end) in
    (in_new ∙ in_kept, out_new ∙ out_kept)
