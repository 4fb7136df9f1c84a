-- ===== src/Tests/Paths.antt =====
-- A route and a call that meet at a path.
use cgraph.Prelude.{◌≡◌, ◌↔◌, refl, true, List, [], ◌∷◌}
use cgraph.Text.{Text, codes, starts_with, strip, split, text_eq}
use cgraph.PathPatterns.{
  patterns_compatible, backend_path_skeleton, split_skeleton, segments, is_within, join_paths,
}
use cgraph.PathPatterns.Meeting.{Matches, patterns_compatible-Matches}

abbrev route : List Text
route = codes "api" ∷ codes "{}" ∷ codes "{*}" ∷ []

abbrev call : List Text
call = codes "{*}" ∷ codes "node" ∷ []

skeleton : backend_path_skeleton (codes " api/{id}/{p:path}") ≡ codes "/api/{}/{*}"
unfolding backend_path_skeleton segments is_within starts_with strip text_eq split
skeleton = refl

skeleton_split : split_skeleton (codes "/api/{}/{*}") ≡ route
unfolding split_skeleton segments strip split
skeleton_split = refl

joined_path : join_paths (codes "api/") (codes "x") ≡ codes "/api/x"
unfolding join_paths starts_with strip text_eq
joined_path = refl

patterns_compatible-Matches_example :
    (patterns_compatible route call ≡ true) ↔ ((p : List Text) × Matches route p × Matches call p)
patterns_compatible-Matches_example = patterns_compatible-Matches route call
