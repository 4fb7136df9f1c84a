-- ===== src/Graph/Incremental.antt =====
-- `update_graph_metrics_incremental_async` of backend/app/graph.py.
use cgraph.Prelude.{
  Bool, true, false, not, ◌&&◌, ◌||◌, none, some, List, [], ◌∷◌, ◌++◌, map, length, ◌==◌, ltb,
  if◌then◌else◌,
}
use cgraph.Prelude.Rows.{select, any}
use cgraph.Text.{Text, text_eq}
use cgraph.Graph.{
  FileNode, FileEdge, Tables, Env, is_empty, has, in_degree, out_degree, scc_of,
  maybe_compute_graph_metrics, update_project_graph_counts, normalize, fetch_edges_for_paths, Walk,
  find_component, ends_of,
}

-- `affected_paths`: the paths themselves, the neighbours that lost an edge, and the ends of their edges
unfoldable pub affected_paths : List Text → List Text → List FileEdge → List Text
affected_paths normalized removed edges =
    normalized
    ++ (select (λ p. not (is_empty p)) removed
        ++ select (λ p. not (is_empty p)) (ends_of (fetch_edges_for_paths edges normalized)))

-- Is there a row for every path?
abbrev pub all_exist : List Text → List FileNode → Bool
all_exist [] nodes = true
all_exist (p ∷ ps) nodes = any (λ n. text_eq p n.path) nodes && all_exist ps nodes

-- Has a degree of one of the paths become smaller?
abbrev pub some_shrank : List Text → List FileEdge → List FileNode → Bool
some_shrank ps edges nodes =
    any
      (λ n.
        has n.path ps
        && (ltb (in_degree n.path edges) n.fan_in || ltb (out_degree n.path edges) n.fan_out))
      nodes

-- the first UPDATE, for one row
unfoldable pub update_fans : List Text → List FileEdge → FileNode → FileNode
update_fans affected edges n =
    if is_empty n.path
    then n
    else if has n.path affected
    then record n { fan_in = in_degree n.path edges; fan_out = out_degree n.path edges }
    else n

-- the second UPDATE, for one row
unfoldable pub update_scc : Env → Walk → FileNode → FileNode
update_scc env w n =
    if env.compute_scc && (not (is_empty n.path) && has n.path w.paths)
    then record n { scc_id = scc_of (env.component w.paths w.edges n.path) }
    else n

-- what is written once the component is found
unfoldable pub update_found : Env → List Text → List Text → Walk → Tables → Bool × Tables
unfolding affected_paths update_fans update_scc update_project_graph_counts
update_found env normalized removed w t =
    if not (all_exist normalized t.nodes)
    then maybe_compute_graph_metrics env t
    else if some_shrank normalized t.edges t.nodes
    then maybe_compute_graph_metrics env t
    else (
      false,
      record (update_project_graph_counts t) {
        nodes =
            map (update_scc env w)
              (map (update_fans (affected_paths normalized removed t.edges) t.edges) t.nodes);
      },
    )

-- `update_graph_metrics_incremental_async`; a list that is not given counts as empty. The fuel of the
-- walk does not run out, so the case of `none` never comes.
unfoldable pub update_graph_metrics_incremental :
    Env → List Text → List Text → Tables → Bool × Tables
unfolding normalize update_found
update_graph_metrics_incremental env modified removed t =
    let normalized = normalize [] modified in
    if length normalized == 0
    then (false, t)
    else if ltb env.max_paths (length normalized)
    then maybe_compute_graph_metrics env t
    else elim (find_component env t.edges normalized) [
      | none ↦ (false, t)
      | some f ↦
          if f.too_large
          then maybe_compute_graph_metrics env t
          else update_found env normalized removed f.walk t
    ]
