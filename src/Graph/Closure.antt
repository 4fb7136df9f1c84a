-- ===== src/Graph/Closure.antt =====
-- What the walk finds is closed under edges (backend/app/graph.py).
use cgraph.Prelude.{
  ℕ, zero, suc, ◌+◌, ◌≤◌, ◌≡◌, inl, inr, refl, subst, Bool, true, false, not, ◌&&◌, ◌||◌, some,
  List, [], ◌∷◌, ◌++◌, length, take, drop, arith, Bool-cases, length-drop, take-append-drop,
}
use cgraph.Prelude.Rows.{select, any}
use cgraph.Text.{Text}
use cgraph.Text.Strip.{text_eq_iff, text_eq_refl}
use cgraph.Graph.{
  FileEdge, Env, has, iter_chunks, touches, fetch_chunks, fetch_edges_for_paths, Walk, same_edge,
  add_edge, add_path, is_named, visit, visit_all, is_too_large, walk_component, ends_of,
  find_component,
}
use cgraph.Graph.Component.{frontier_cases}

pub has-append : (p : Text) (ps qs : List Text) → has p (ps ++ qs) ≡ (has p ps || has p qs)
has-append p [] qs = refl
has-append p (r ∷ ps) qs = ground (arith, has-append p ps qs)

any_edge-append :
    (e : FileEdge) (es fs : List FileEdge)
    → any (same_edge e) (es ++ fs) ≡ (any (same_edge e) es || any (same_edge e) fs)
any_edge-append e [] fs = refl
any_edge-append e (f ∷ es) fs = ground (arith, any_edge-append e es fs)

add_path-keeps : (p q : Text) (w : Walk) → has p w.paths ≡ true → has p (add_path q w).paths ≡ true
add_path-keeps p q w h = ground arith

add_path-has : (p : Text) (w : Walk) → has p (add_path p w).paths ≡ true
add_path-has p w = ground (arith, text_eq_refl p)

-- A path that a turn adds is on the next frontier.
abbrev pub accounted : Text → List Text → Walk → Bool
accounted p base w = not (has p w.paths) || (has p base || has p w.frontier)

add_path-accounted :
    (p q : Text) (base : List Text) (w : Walk)
    → accounted p base w ≡ true
    → accounted p base (add_path q w) ≡ true
add_path-accounted p q base w h = ground arith

visit-accounted :
    (p : Text) (base : List Text) (f : FileEdge) (w : Walk)
    → accounted p base w ≡ true
    → accounted p base (visit f w) ≡ true
unfolding visit
visit-accounted p base f w h =
    let w' : Walk = record w { edges = add_edge f w.edges } in
    elim (Bool-cases (is_named f)) [
      | inr bare ↦ ground arith
      | inl named ↦
          let one = add_path-accounted p f.src_path base w' h in
          let two = add_path-accounted p f.dst_path base (add_path f.src_path w') one in
          ground (arith, two)
    ]

visit_all-accounted :
    (p : Text) (base : List Text) (fs : List FileEdge) (w : Walk)
    → accounted p base w ≡ true
    → accounted p base (visit_all fs w) ≡ true
unfolding visit_all
visit_all-accounted p base [] w h = h
visit_all-accounted p base (f ∷ fs) w h =
    visit_all-accounted p base fs (visit f w) (visit-accounted p base f w h)

visit-keeps :
    (p : Text) (f : FileEdge) (w : Walk) → has p w.paths ≡ true → has p (visit f w).paths ≡ true
unfolding visit
visit-keeps p f w h =
    let w' : Walk = record w { edges = add_edge f w.edges } in
    let one = add_path-keeps p f.src_path w' h in
    let two = add_path-keeps p f.dst_path (add_path f.src_path w') one in ground (arith, two)

visit_all-keeps :
    (p : Text) (fs : List FileEdge) (w : Walk)
    → has p w.paths ≡ true
    → has p (visit_all fs w).paths ≡ true
unfolding visit_all
visit_all-keeps p [] w h = h
visit_all-keeps p (f ∷ fs) w h = visit_all-keeps p fs (visit f w) (visit-keeps p f w h)

same_edge_ends :
    (e f : FileEdge) → same_edge e f ≡ true → (e.src_path ≡ f.src_path) × (e.dst_path ≡ f.dst_path)
same_edge_ends e f h = (
  (text_eq_iff e.src_path f.src_path).0 (ground arith),
  (text_eq_iff e.dst_path f.dst_path).0 (ground arith),
)

visit-has :
    (f : FileEdge) (w : Walk)
    → is_named f ≡ true
    → (has f.src_path (visit f w).paths ≡ true) × (has f.dst_path (visit f w).paths ≡ true)
unfolding visit
visit-has f w named =
    let w' : Walk = record w { edges = add_edge f w.edges } in
    let w'' = add_path f.src_path w' in
    ground (
      arith,
      add_path-has f.src_path w',
      add_path-keeps f.src_path f.dst_path w'',
      add_path-has f.dst_path w'',
    )

-- Both ends of an edge among the rows are found.
visit_all-has :
    (e : FileEdge) (fs : List FileEdge) (w : Walk)
    → is_named e ≡ true
    → any (same_edge e) fs ≡ true
    → (has e.src_path (visit_all fs w).paths ≡ true)
      × (has e.dst_path (visit_all fs w).paths ≡ true)
unfolding visit_all
visit_all-has e [] w named h = absurd (ground arith)
visit_all-has e (f ∷ fs) w named h = elim (Bool-cases (same_edge e f)) [
  | inr other ↦ visit_all-has e fs (visit f w) named (ground arith)
  | inl same ↦
      let (src, dst) = same_edge_ends e f same in
      let (one, two) = visit-has f w (ground (arith, src, dst)) in
      (
        visit_all-keeps e.src_path fs (visit f w) (ground (arith, one, src)),
        visit_all-keeps e.dst_path fs (visit f w) (ground (arith, two, dst)),
      )
]

any_edge-select :
    (e : FileEdge) (chunk : List Text) (edges : List FileEdge)
    → any (same_edge e) edges ≡ true
    → touches chunk e ≡ true
    → any (same_edge e) (select (touches chunk) edges) ≡ true
any_edge-select e chunk [] h t = absurd (ground arith)
any_edge-select e chunk (f ∷ edges) h t = elim (Bool-cases (same_edge e f)) [
  | inr other ↦ ground (arith, any_edge-select e chunk edges)
  | inl same ↦
      let (src, dst) = same_edge_ends e f same in
      let t' : touches chunk f ≡ true = ground (arith, src, dst) in ground arith
]

pub fetch_chunks-any :
    (fuel n : ℕ) (e : FileEdge) (edges : List FileEdge) (paths : List Text)
    → any (same_edge e) edges ≡ true
    → touches paths e ≡ true
    → length paths ≤ fuel
    → any (same_edge e) (fetch_chunks edges (iter_chunks fuel n paths)) ≡ true
unfolding fetch_chunks iter_chunks
fetch_chunks-any zero n e edges [] h t m = absurd (ground arith)
fetch_chunks-any zero n e edges (p ∷ paths) h t m = absurd (omega (arith, m))
fetch_chunks-any (suc fuel) n e edges [] h t m = absurd (ground arith)
fetch_chunks-any (suc fuel) n e edges (p ∷ paths) h t m =
    let src = has-append e.src_path (take n paths) (drop n paths) in
    let dst = has-append e.dst_path (take n paths) (drop n paths) in
    let whole = take-append-drop n paths in
    ground (
      arith,
      any_edge-append e (select (touches (p ∷ take n paths)) edges)
          (fetch_chunks edges (iter_chunks fuel n (drop n paths))),
      any_edge-select e (p ∷ take n paths) edges,
      length-drop n paths,
      fetch_chunks-any fuel n e edges (drop n paths),
    )

-- An edge that touches what is found has both its ends there, or touches the frontier.
abbrev pub closed_at : FileEdge → Walk → Bool
closed_at e w =
    not (touches w.paths e)
    || (touches w.frontier e || (has e.src_path w.paths && has e.dst_path w.paths))

closed_at-step :
    (e : FileEdge) (edges : List FileEdge) (w : Walk)
    → is_named e ≡ true
    → any (same_edge e) edges ≡ true
    → closed_at e w ≡ true
    → closed_at e (visit_all (fetch_edges_for_paths edges w.frontier) (record w { frontier = [] }))
      ≡ true
unfolding fetch_edges_for_paths
closed_at-step e edges w named here h =
    let rows = fetch_edges_for_paths edges w.frontier in
    let w0 : Walk = record w { frontier = [] } in
    let src = visit_all-accounted e.src_path w.paths rows w0 (ground arith) in
    let dst = visit_all-accounted e.dst_path w.paths rows w0 (ground arith) in
    elim (Bool-cases (touches w.frontier e)) [
      | inl t ↦
          let (one, two) =
            visit_all-has e rows w0 named
              (fetch_chunks-any (length w.frontier) 399 e edges w.frontier here t (omega arith)) in
          ground (arith, one, two)
      | inr far ↦
          ground (
            arith,
            src,
            dst,
            visit_all-keeps e.src_path rows w0,
            visit_all-keeps e.dst_path rows w0,
          )
    ]

walk_component-closed :
    (fuel : ℕ) (env : Env) (edges : List FileEdge) (w w' : Walk) (e : FileEdge)
    → is_named e ≡ true
    → any (same_edge e) edges ≡ true
    → closed_at e w ≡ true
    → walk_component fuel env edges w ≡ some (record { too_large = false; walk = w' })
    → touches w'.paths e ≡ true
    → (has e.src_path w'.paths && has e.dst_path w'.paths) ≡ true
unfolding walk_component
walk_component-closed zero env edges w w' e named here h done t = absurd (ground arith)
walk_component-closed (suc fuel) env edges w w' e named here h done t =
    let next = visit_all (fetch_edges_for_paths edges w.frontier) (record w { frontier = [] }) in
    elim (frontier_cases w.frontier) [
      | inl empty ↦
          let e' : w ≡ w' = ground arith in
          let h' = subst (λ v. closed_at e v ≡ true) e' h in
          let empty' = subst (λ v. v.frontier ≡ []) e' empty in ground (arith, h', empty')
      | inr (p, ps, nonempty) ↦ elim (Bool-cases (is_too_large env next)) [
        | inl large ↦ absurd (ground arith)
        | inr small ↦
            walk_component-closed fuel env edges next w' e named here
              (closed_at-step e edges w named here h) (ground arith) t
      ]
    ]

-- Where the component is not too large, an edge with one end in it has both ends in it.
find_component-closed :
    (env : Env) (edges : List FileEdge) (start : List Text) (w : Walk) (e : FileEdge)
    → is_named e ≡ true
    → any (same_edge e) edges ≡ true
    → find_component env edges start ≡ some (record { too_large = false; walk = w })
    → touches w.paths e ≡ true
    → (has e.src_path w.paths && has e.dst_path w.paths) ≡ true
unfolding find_component
find_component-closed env edges start w e named here =
    walk_component-closed (length (ends_of edges) + 2) env edges
      (record { paths = start; edges = []; frontier = start }) w e named here (ground arith)
