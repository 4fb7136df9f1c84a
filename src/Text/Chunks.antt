-- ===== src/Text/Chunks.antt =====
-- `_chunk_text` of backend/app/utils.py: a text in pieces of one size that overlap.
use cgraph.Prelude.{
  ℕ, zero, suc, ◌-◌, ◌<◌, ◌≤◌, ◌≡◌, refl, Bool, true, false, List, [], ◌∷◌, ◌++◌, ltb,
  if◌then◌else◌, length, take, drop, map, arith, take-append-drop, length-drop, length-take,
}
use cgraph.Text.{Text}
use cgraph.Text.Number.{ℤ, pos, negsuc}

-- The loop over `range(0, len(text), step)`, on the text from `start` on. Each turn takes a character
-- at least, so that the length of the text is enough fuel.
unfoldable pub chunks_from : ℕ → ℕ → ℕ → Text → List Text
chunks_from zero size step rest = []
chunks_from (suc fuel) size step [] = []
chunks_from (suc fuel) size step (c ∷ rest) =
    take size (c ∷ rest) ∷ chunks_from fuel size step (drop step (c ∷ rest))

-- `max(0, min(overlap, size - 1))`
abbrev pub overlap_of : ℤ → ℕ → ℕ
overlap_of (negsuc n) size = 0
overlap_of (pos n) size = if ltb n (size - 1) then n else size - 1

-- `max(1, size - overlap)`
abbrev pub step_of : ℕ → ℕ → ℕ
step_of size overlap = if ltb 1 (size - overlap) then size - overlap else 1

-- `_chunk_text`
unfoldable pub chunk_text : Text → ℤ → ℤ → List Text
unfolding chunks_from
chunk_text text (negsuc n) overlap = []
chunk_text text (pos zero) overlap = []
chunk_text text (pos (suc n)) overlap =
    chunks_from (length text) (suc n) (step_of (suc n) (overlap_of overlap (suc n))) text

abbrev pub concat : List Text → Text
concat [] = []
concat (s ∷ ss) = s ++ concat ss

-- is every piece at most this long, and not empty
abbrev pub all_fit : ℕ → List Text → Bool
all_fit size [] = true
all_fit size (s ∷ ss) =
    if ltb 0 (length s) then (if ltb size (length s) then false else all_fit size ss) else false

take-take : (m n : ℕ) (s : Text) → m ≤ n → take m (take n s) ≡ take m s
take-take zero n s h = refl
take-take (suc m) zero s h = absurd (omega (arith, h))
take-take (suc m) (suc n) [] h = refl
take-take (suc m) (suc n) (c ∷ s) h = ground (arith, take-take m n s)

chunks_from-concat :
    (fuel size step : ℕ) (rest : Text)
    → length rest ≤ fuel
    → 0 < step
    → step ≤ size
    → concat (map (take step) (chunks_from fuel size step rest)) ≡ rest
unfolding chunks_from
chunks_from-concat zero size step [] h p q = refl
chunks_from-concat zero size step (c ∷ rest) h p q = absurd (ground arith)
chunks_from-concat (suc fuel) size step [] h p q = refl
chunks_from-concat (suc fuel) size step (c ∷ rest) h p q = ground (
  arith,
  length-drop step (c ∷ rest),
  take-take step size (c ∷ rest),
  take-append-drop step (c ∷ rest),
  chunks_from-concat fuel size step (drop step (c ∷ rest)),
)

chunks_from-all_fit :
    (fuel size step : ℕ) (rest : Text)
    → 0 < size
    → all_fit size (chunks_from fuel size step rest) ≡ true
unfolding chunks_from
chunks_from-all_fit zero size step rest p = refl
chunks_from-all_fit (suc fuel) size step [] p = refl
chunks_from-all_fit (suc fuel) size step (c ∷ rest) p =
    ground (
      arith,
      length-take size (c ∷ rest),
      chunks_from-all_fit fuel size step (drop step (c ∷ rest)),
    )

-- With a positive size no piece is empty or longer than that, and the pieces, each cut to the step from
-- one to the next, are the text.
chunk_text-concat :
    (text : Text) (n : ℕ) (overlap : ℤ)
    → (concat (
          map
            (take (step_of (suc n) (overlap_of overlap (suc n))))
            (chunk_text text (pos (suc n)) overlap))
        ≡ text)
      × (all_fit (suc n) (chunk_text text (pos (suc n)) overlap) ≡ true)
unfolding chunk_text
chunk_text-concat text n overlap =
    let step = step_of (suc n) (overlap_of overlap (suc n)) in
    (
      chunks_from-concat (length text) (suc n) step text (omega arith) (ground arith)
          (ground arith),
      chunks_from-all_fit (length text) (suc n) step text (omega arith),
    )
