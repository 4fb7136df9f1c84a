-- ===== src/PathPatterns/Meeting.antt =====
-- Two patterns are compatible just if there is a path that both match (backend/app/api_map.py).
use cgraph.Prelude.{
  ◌≡◌, ◌⊎◌, inl, inr, refl, sym, subst, ◌↔◌, true, false, ◌&&◌, List, [], ◌∷◌, if◌then◌else◌, arith,
  Bool-cases,
}
use cgraph.Text.{Text, text_eq}
use cgraph.Text.Strip.{text_eq_iff}
use cgraph.PathPatterns.{token_any1, token_anym, is_static, all_anym, patterns_compatible}

-- A path, as its segments, matches a pattern: `{}` stands for one segment, `{*}` for any number, and any
-- other token for itself.
pub data Matches : List Text → List Text → Type 0 where
  done : Matches [] []
  fixed :
      {t s : Text} {ts p : List Text}
      → is_static t ≡ true
      → t ≡ s
      → Matches ts p
      → Matches (t ∷ ts) (s ∷ p)
  one :
      {t s : Text} {ts p : List Text}
      → text_eq t token_any1 ≡ true
      → Matches ts p
      → Matches (t ∷ ts) (s ∷ p)
  none_of :
      {t : Text} {ts p : List Text}
      → text_eq t token_anym ≡ true
      → Matches ts p
      → Matches (t ∷ ts) p
  more :
      {t s : Text} {ts p : List Text}
      → text_eq t token_anym ≡ true
      → Matches (t ∷ ts) p
      → Matches (t ∷ ts) (s ∷ p)

Matches-nil : (ts : List Text) → all_anym ts ≡ true → Matches ts []
Matches-nil [] h = done
Matches-nil (t ∷ ts) h = none_of (ground arith) (Matches-nil ts (ground arith))

all_anym-Matches : {ts : List Text} → Matches ts [] → all_anym ts ≡ true
all_anym-Matches done = refl
all_anym-Matches (none_of e m) = ground (arith, all_anym-Matches m)

token_cases :
    (t : Text)
    → (is_static t ≡ true) ⊎ ((text_eq t token_any1 ≡ true) ⊎ (text_eq t token_anym ≡ true))
unfolding is_static
token_cases t = elim (Bool-cases (text_eq t token_any1)) [
  | inl e ↦ inr (inl e)
  | inr n ↦ elim (Bool-cases (text_eq t token_anym)) [
    | inl e ↦ inr (inr e)
    | inr m ↦ inl (ground arith)
  ]
]

-- `{}` and `{*}` are different tokens, and not static.
anym_not_one : (t : Text) → text_eq t token_anym ≡ true → text_eq t token_any1 ≡ false
unfolding text_eq
anym_not_one t e =
    let same = (text_eq_iff t token_anym).0 e in
    subst (λ s. text_eq s token_any1 ≡ false) (sym same) refl

abbrev Meet : List Text → List Text → Type 0
Meet a b = (p : List Text) × Matches a p × Matches b p

-- A token in front of one side is met by `{*}` on the other.
Meet-right :
    (ta tb : Text) (a b : List Text)
    → text_eq ta token_anym ≡ true
    → Meet (ta ∷ a) b
    → Meet (ta ∷ a) (tb ∷ b)
Meet-right ta tb a b e (p, ma, mb) = elim (token_cases tb) [
  | inl static ↦ (tb ∷ p, more e ma, fixed static refl mb)
  | inr (inl any1) ↦ (tb ∷ p, more e ma, one any1 mb)
  | inr (inr anym) ↦ (p, ma, none_of anym mb)
]

Meet-swap : (a b : List Text) → Meet a b → Meet b a
Meet-swap a b (p, ma, mb) = (p, mb, ma)

-- Two tokens in front that are not `{*}` meet, unless they are static and differ.
Meet-heads :
    (ta tb : Text) (a b p : List Text)
    → Matches a p
    → Matches b p
    → text_eq ta token_anym ≡ false
    → text_eq tb token_anym ≡ false
    → (if is_static ta && is_static tb then text_eq ta tb else true) ≡ true
    → Meet (ta ∷ a) (tb ∷ b)
Meet-heads ta tb a b p ma mb na nb h = elim (token_cases ta) [
  | inl sa ↦ elim (token_cases tb) [
    | inl sb ↦ (ta ∷ p, fixed sa refl ma, fixed sb (sym ((text_eq_iff ta tb).0 (ground arith))) mb)
    | inr (inl ob) ↦ (ta ∷ p, fixed sa refl ma, one ob mb)
    | inr (inr mb') ↦ absurd (cc)
  ]
  | inr (inl oa) ↦ elim (token_cases tb) [
    | inl sb ↦ (tb ∷ p, one oa ma, fixed sb refl mb)
    | inr (inl ob) ↦ (tb ∷ p, one oa ma, one ob mb)
    | inr (inr mb') ↦ absurd (cc)
  ]
  | inr (inr ma') ↦ absurd (cc)
]

patterns_compatible_sound : (a b : List Text) → patterns_compatible a b ≡ true → Meet a b
unfolding patterns_compatible
patterns_compatible_sound [] b h = ([], done, Matches-nil b h)
patterns_compatible_sound (ta ∷ a) [] h = ([], Matches-nil (ta ∷ a) h, done)
patterns_compatible_sound (ta ∷ a) (tb ∷ b) h = elim (Bool-cases (text_eq ta token_anym)) [
  | inl anym ↦ elim (Bool-cases (patterns_compatible a (tb ∷ b))) [
    | inl zero_a ↦
        let (p, ma, mb) = patterns_compatible_sound a (tb ∷ b) zero_a in (p, none_of anym ma, mb)
    | inr other ↦ Meet-right ta tb a b anym (patterns_compatible_sound (ta ∷ a) b (ground arith))
  ]
  | inr not_anym ↦ elim (Bool-cases (text_eq tb token_anym)) [
    | inl anym ↦ elim (Bool-cases (patterns_compatible (ta ∷ a) b)) [
      | inl more_a ↦
          let (p, ma, mb) = patterns_compatible_sound (ta ∷ a) b more_a in (p, ma, none_of anym mb)
      | inr other ↦ Meet-swap (tb ∷ b) (ta ∷ a) (
          Meet-right tb ta b a anym
            (Meet-swap a (tb ∷ b) (patterns_compatible_sound a (tb ∷ b) (ground arith))))
    ]
    | inr neither ↦
        let (p, ma, mb) = patterns_compatible_sound a b (ground arith) in
        Meet-heads ta tb a b p ma mb not_anym neither (ground arith)
  ]
]

skip :
    (t : Text) (ts b : List Text)
    → text_eq t token_anym ≡ true
    → patterns_compatible ts b ≡ true
    → patterns_compatible (t ∷ ts) b ≡ true
unfolding patterns_compatible
skip t [] [] e h = ground arith
skip t (u ∷ ts) [] e h = ground arith
skip t ts (tb ∷ b) e h = ground arith

patterns_compatible_complete :
    {a b p : List Text} → Matches a p → Matches b p → patterns_compatible a b ≡ true
unfolding patterns_compatible is_static
patterns_compatible_complete done mb = all_anym-Matches mb
patterns_compatible_complete (none_of e ma) mb = skip _ _ _ e (patterns_compatible_complete ma mb)
patterns_compatible_complete (more e ma) (fixed st se mb) =
    ground (arith, patterns_compatible_complete ma mb)
patterns_compatible_complete (more e ma) (one st mb) =
    ground (arith, patterns_compatible_complete ma mb)
patterns_compatible_complete (more e ma) (none_of f mb) =
    ground (arith, patterns_compatible_complete (more e ma) mb)
patterns_compatible_complete (more e ma) (more f mb) = patterns_compatible_complete ma mb
patterns_compatible_complete (fixed {t = ta} e q ma) (fixed {t = tb} f r mb) =
    ground (arith, text_eq_iff ta tb, patterns_compatible_complete ma mb)
patterns_compatible_complete (fixed e q ma) (one {t = tb} f mb) =
    ground (arith, anym_not_one tb, patterns_compatible_complete ma mb)
patterns_compatible_complete (fixed e q ma) (none_of f mb) =
    ground (arith, patterns_compatible_complete (fixed e q ma) mb)
patterns_compatible_complete (fixed e q ma) (more f mb) =
    ground (arith, patterns_compatible_complete ma mb)
patterns_compatible_complete (one {t = ta} e ma) (fixed f r mb) =
    ground (arith, anym_not_one ta, patterns_compatible_complete ma mb)
patterns_compatible_complete (one {t = ta} e ma) (one {t = tb} f mb) =
    ground (arith, anym_not_one ta, anym_not_one tb, patterns_compatible_complete ma mb)
patterns_compatible_complete (one {t = ta} e ma) (none_of f mb) =
    ground (arith, anym_not_one ta, patterns_compatible_complete (one e ma) mb)
patterns_compatible_complete (one {t = ta} e ma) (more f mb) =
    ground (arith, anym_not_one ta, patterns_compatible_complete ma mb)

-- Two patterns are compatible just if there is a path that both match.
pub patterns_compatible-Matches :
    (a b : List Text)
    → (patterns_compatible a b ≡ true) ↔ ((p : List Text) × Matches a p × Matches b p)
patterns_compatible-Matches a b =
    (patterns_compatible_sound a b, λ m. patterns_compatible_complete m.1 m.2)
