-- ===== src/PathPatterns.antt =====
-- backend/app/api_map.py: path patterns of routes and calls, and whether two of them can meet.
pub mod Meeting
use cgraph.Prelude.{
  ℕ, zero, suc, ◌+◌, String, Bool, true, false, not, ◌&&◌, ◌||◌, Option, none, some, List, [], ◌∷◌,
  ◌++◌, map, length, ◌-◌, ◌==◌, if◌then◌else◌,
}
use cgraph.Text.{Text, codes, text_eq, strip, starts_with, split}

-- `TOKEN_ANY1` and `TOKEN_ANYM`
abbrev pub token_any1 : Text
token_any1 = codes "{}"

abbrev pub token_anym : Text
token_anym = codes "{*}"

-- `_is_static`
unfoldable pub is_static : Text → Bool
is_static tok = not (text_eq tok token_any1 || text_eq tok token_anym)

-- `static_match_score`
unfoldable pub static_match_score : List Text → List Text → ℕ
static_match_score [] b = 0
static_match_score (x ∷ a) [] = 0
static_match_score (x ∷ a) (y ∷ b) =
    (if is_static x && (is_static y && text_eq x y) then 1 else 0) + static_match_score a b

-- `all(t == TOKEN_ANYM for t in tokens)`
abbrev pub all_anym : List Text → Bool
all_anym [] = true
all_anym (t ∷ ts) = text_eq t token_anym && all_anym ts

-- `patterns_compatible`: `rec` at `i` and `j`, on the rests of the lists; the memo table returns what
-- was computed at the same rests.
unfoldable pub patterns_compatible : List Text → List Text → Bool
patterns_compatible [] b = all_anym b
patterns_compatible (ta ∷ a) [] = all_anym (ta ∷ a)
patterns_compatible (ta ∷ a) (tb ∷ b) =
    let zero_a = patterns_compatible a (tb ∷ b) in
    let more_a = patterns_compatible (ta ∷ a) b in
    let both = patterns_compatible a b in
    if text_eq ta token_anym
    then (if zero_a then true else more_a)
    else if text_eq tb token_anym
    then (if more_a then true else zero_a)
    else if is_static ta && is_static tb
    then text_eq ta tb && both
    else both

-- `s.split("/")` without the empty segments
abbrev pub not_empty : List Text → List Text
not_empty [] = []
not_empty ([] ∷ ps) = not_empty ps
not_empty ((c ∷ p) ∷ ps) = (c ∷ p) ∷ not_empty ps

unfoldable pub segments : Text → List Text
segments s = not_empty (split b'/' (length s) s)

-- `sub in s`
unfoldable pub is_within : Text → Text → Bool
unfolding starts_with
is_within sub [] = starts_with sub []
is_within sub (c ∷ s) =
    let later = is_within sub s in if starts_with sub (c ∷ s) then true else later

-- `s.endswith(c)`
abbrev pub ends_with_char : ℕ → Text → Bool
ends_with_char c [] = false
ends_with_char c (d ∷ []) = d == c
ends_with_char c (d ∷ e ∷ s) = ends_with_char c (e ∷ s)

-- `s[:-1]`
abbrev pub without_last : Text → Text
without_last [] = []
without_last (c ∷ []) = []
without_last (c ∷ d ∷ s) = c ∷ without_last (d ∷ s)

abbrev pub with_slash : Text → Text
with_slash s = if starts_with (codes "/") s then s else b'/' ∷ s

-- `seg[1:-1]`, of a segment in braces
abbrev pub inner_of : Text → Text
inner_of [] = []
inner_of (c ∷ s) = without_last s

abbrev pub backend_token : Text → Text
backend_token seg =
    if starts_with (codes "{") seg && ends_with_char b'}' seg
    then (if is_within (codes ":path") (inner_of seg) then token_anym else token_any1)
    else seg

-- `"/" + "/".join(out) if out else "/"`
abbrev pub joined : List Text → Text
joined [] = []
joined (p ∷ ps) = b'/' ∷ (p ++ joined ps)

abbrev pub or_slash : Text → Text
or_slash [] = codes "/"
or_slash (c ∷ s) = c ∷ s

-- `backend_path_skeleton`
unfoldable pub backend_path_skeleton : Text → Text
unfolding strip segments is_within starts_with
backend_path_skeleton path =
    let raw = strip path in
    elim raw [
      | [] ↦ codes "/"
      | c ∷ s ↦ or_slash (joined (map backend_token (segments (with_slash (c ∷ s)))))
    ]

-- `split_skeleton`
unfoldable pub split_skeleton : Text → List Text
unfolding strip segments
split_skeleton s = segments (strip s)

-- `pfx.rstrip("/")`
abbrev pub rstrip_slash : Text → Text
rstrip_slash [] = []
rstrip_slash (c ∷ s) = elim (rstrip_slash s) [
  | [] ↦ if c == b'/' then [] else c ∷ []
  | d ∷ t ↦ c ∷ d ∷ t
]

abbrev pub is_empty : Text → Bool
is_empty [] = true
is_empty (c ∷ s) = false

abbrev pub slashed : Text → Text
slashed s = if is_empty s then [] else with_slash s

-- `_join_paths`
unfoldable pub join_paths : Text → Text → Text
unfolding strip starts_with
join_paths prefix path =
    let whole = slashed (strip prefix) in
    let pfx =
      if ends_with_char b'/' whole && not (text_eq whole (codes "/"))
      then rstrip_slash whole
      else whole in
    let pth = slashed (strip path) in
    if is_empty pth
    then or_slash pfx
    else if is_empty pfx
    then pth
    else if text_eq pfx (codes "/")
    then pth
    else pfx ++ pth
