-- ===== src/Graph/Component.antt =====
-- The walk ends, and what it finds is closed under edges (backend/app/graph.py).
use cgraph.Prelude.{
  ℕ, zero, suc, ◌+◌, ◌<◌, ◌≤◌, ◌≡◌, ◌⊎◌, inl, inr, refl, subst, ap, min, Bool, true, false, not,
  ◌&&◌, some, List, [], ◌∷◌, ◌++◌, length, arith, Bool-cases,
}
use cgraph.Prelude.Rows.{select, length-select-le}
use cgraph.Text.{Text, text_eq}
use cgraph.Text.Strip.{text_eq_iff, text_eq_refl}
use cgraph.Graph.{
  FileEdge, Env, has, iter_chunks, touches, fetch_chunks, fetch_edges_for_paths, Walk, add_edge,
  add_path, is_named, visit, visit_all, Found, is_too_large, walk_component, ends_of,
  find_component,
}

-- the ends of edges that a list of paths does not have
abbrev pub missing : List Text → List Text → ℕ
missing paths ends = length (select (λ p. not (has p paths)) ends)

missing-cons-le :
    (p : Text) (paths ends : List Text) → missing (p ∷ paths) ends ≤ missing paths ends
missing-cons-le p paths [] = omega arith
missing-cons-le p paths (q ∷ ends) = ground (arith, missing-cons-le p paths ends)

missing-cons-lt :
    (p : Text) (paths ends : List Text)
    → has p ends ≡ true
    → has p paths ≡ false
    → missing (p ∷ paths) ends + 1 ≤ missing paths ends
missing-cons-lt p paths [] h n = absurd (ground arith)
missing-cons-lt p paths (q ∷ ends) h n = elim (Bool-cases (text_eq p q)) [
  | inl e ↦
      let same : p ≡ q = (text_eq_iff p q).0 e in
      let n' = subst (λ r. has r paths ≡ false) same n in
      ground (arith, text_eq_iff q p, same, missing-cons-le p paths ends)
  | inr d ↦ ground (arith, missing-cons-lt p paths ends, missing-cons-le p paths ends)
]

-- the ends of these edges are among these paths
abbrev pub ends_within : List Text → List FileEdge → Bool
ends_within ends [] = true
ends_within ends (e ∷ es) = has e.src_path ends && (has e.dst_path ends && ends_within ends es)

abbrev pub potential : List Text → Walk → ℕ
potential ends w = missing w.paths ends + length w.frontier

add_path-potential :
    (p : Text) (w : Walk) (ends : List Text)
    → has p ends ≡ true
    → potential ends (add_path p w) ≤ potential ends w
add_path-potential p w ends h = ground (arith, missing-cons-lt p w.paths ends)

visit-potential :
    (e : FileEdge) (w : Walk) (ends : List Text)
    → has e.src_path ends ≡ true
    → has e.dst_path ends ≡ true
    → potential ends (visit e w) ≤ potential ends w
unfolding visit
visit-potential e w ends s d =
    let w' : Walk = record w { edges = add_edge e w.edges } in
    let one = add_path-potential e.src_path w' ends s in
    let two = add_path-potential e.dst_path (add_path e.src_path w') ends d in
    elim (Bool-cases (is_named e)) [
      | inl named ↦ ground (arith, one, two)
      | inr bare ↦ ground arith
    ]

visit_all-potential :
    (es : List FileEdge) (w : Walk) (ends : List Text)
    → ends_within ends es ≡ true
    → potential ends (visit_all es w) ≤ potential ends w
unfolding visit_all
visit_all-potential [] w ends h = omega arith
visit_all-potential (e ∷ es) w ends h =
    ground (arith, visit-potential e w ends, visit_all-potential es (visit e w) ends)

ends_within-append :
    (ends : List Text) (es fs : List FileEdge)
    → ends_within ends (es ++ fs) ≡ (ends_within ends es && ends_within ends fs)
ends_within-append ends [] fs = refl
ends_within-append ends (e ∷ es) fs = ground (arith, ends_within-append ends es fs)

ends_within-select :
    (ends : List Text) (p : FileEdge → Bool) (es : List FileEdge)
    → ends_within ends es ≡ true
    → ends_within ends (select p es) ≡ true
ends_within-select ends p [] h = refl
ends_within-select ends p (e ∷ es) h = ground (arith, ends_within-select ends p es)

ends_within-fetch_chunks :
    (ends : List Text) (edges : List FileEdge) (chunks : List (List Text))
    → ends_within ends edges ≡ true
    → ends_within ends (fetch_chunks edges chunks) ≡ true
unfolding fetch_chunks
ends_within-fetch_chunks ends edges [] h = refl
ends_within-fetch_chunks ends edges (chunk ∷ chunks) h = ground (
  arith,
  ends_within-append ends (select (touches chunk) edges) (fetch_chunks edges chunks),
  ends_within-select ends (touches chunk) edges,
  ends_within-fetch_chunks ends edges chunks,
)

ends_within-more :
    (p : Text) (ends : List Text) (es : List FileEdge)
    → ends_within ends es ≡ true
    → ends_within (p ∷ ends) es ≡ true
ends_within-more p ends [] h = refl
ends_within-more p ends (e ∷ es) h = ground (arith, ends_within-more p ends es)

ends_within-ends_of : (es : List FileEdge) → ends_within (ends_of es) es ≡ true
ends_within-ends_of [] = refl
ends_within-ends_of (e ∷ es) = ground (
  arith,
  text_eq_refl e.src_path,
  text_eq_refl e.dst_path,
  ends_within-ends_of es,
  ends_within-more e.dst_path (ends_of es) es,
  ends_within-more e.src_path (e.dst_path ∷ ends_of es) es,
)

ends_within-fetch_edges :
    (edges : List FileEdge) (paths : List Text)
    → ends_within (ends_of edges) (fetch_edges_for_paths edges paths) ≡ true
unfolding fetch_edges_for_paths
ends_within-fetch_edges edges paths =
    ends_within-fetch_chunks (ends_of edges) edges (iter_chunks (length paths) 399 paths)
      (ends_within-ends_of edges)

pub frontier_cases : (ps : List Text) → (ps ≡ []) ⊎ ((p : Text) × (qs : List Text) × (ps ≡ p ∷ qs))
frontier_cases [] = inl refl
frontier_cases (p ∷ ps) = inr (p, ps, refl)

walk_component-some :
    (fuel : ℕ) (env : Env) (edges : List FileEdge) (w : Walk)
    → missing w.paths (ends_of edges) + min 1 (length w.frontier) < fuel
    → (f : Found) × (walk_component fuel env edges w ≡ some f)
unfolding walk_component
walk_component-some zero env edges w enough = absurd (omega arith)
walk_component-some (suc fuel) env edges w enough = elim (frontier_cases w.frontier) [
  | inl empty ↦ (record { too_large = false; walk = w }, ground arith)
  | inr (p, ps, more) ↦
      let rows = fetch_edges_for_paths edges w.frontier in
      let w' = visit_all rows (record w { frontier = [] }) in
      elim (Bool-cases (is_too_large env w')) [
        | inl large ↦ (record { too_large = true; walk = w' }, ground arith)
        | inr small ↦
            let shrinks =
              visit_all-potential rows (record w { frontier = [] }) (ends_of edges)
                (ends_within-fetch_edges edges w.frontier) in
            let (f, ends) = walk_component-some fuel env edges w' (omega (arith, ap length more)) in
            (f, ground arith)
      ]
]

-- The loop over the component ends, whatever the tables and the limits are: it takes at most two turns
-- more than there are ends of edges.
pub find_component-some :
    (env : Env) (edges : List FileEdge) (start : List Text)
    → (f : Found) × (find_component env edges start ≡ some f)
unfolding find_component
find_component-some env edges start =
    walk_component-some (length (ends_of edges) + 2) env edges
      (record { paths = start; edges = []; frontier = start })
      (omega (arith, length-select-le (λ p. not (has p start)) (ends_of edges)))
