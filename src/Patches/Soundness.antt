-- ===== src/Patches/Soundness.antt =====
-- A patch changes nothing but what its hunks say, and where it differs from the format of unified
-- diffs (backend/app/patches.py).
use mathlib.Core.List.{append_assoc, append-nil}
use cgraph.Prelude.{
  ℕ, ◌+◌, ◌≡◌, ◌≢◌, refl, List, [], ◌∷◌, ◌++◌, ltb, length, length-append, arith, ◌⊎◌, inl, inr,
  Bool-cases, map,
}
use cgraph.Text.{Text}
use cgraph.Patches.{
  Outcome, ok, raise, PatchApplyError, added, Hunk, Cursor, copy_until, target_of, apply_lines,
  apply_hunks, apply_file_patch,
}
use cgraph.Patches.Hunks.{new_side, at, apply_lines-Applied}
use cgraph.Patches.Layout.{Piece, old_text, new_text, new_text-append, hunks_of, copy_until-gap}

Outcome-cases {ℓ} :
    {A : Type ℓ} (r : Outcome A) → ((a : A) × (r ≡ ok a)) ⊎ ((e : PatchApplyError) × (r ≡ raise e))
Outcome-cases (ok a) = inl (a, refl)
Outcome-cases (raise e) = inr (e, refl)

-- Copying moves a stretch of lines over as it is.
copy_until-splits :
    (target idx : ℕ) (rest out : List Text)
    → (gap : List Text) × (rest ≡ gap ++ (copy_until target idx rest out).rest)
      × ((copy_until target idx rest out).out ≡ out ++ gap)
unfolding copy_until
copy_until-splits target idx [] out = ([], ground arith, ground (arith, append-nil out))
copy_until-splits target idx (x ∷ rest) out =
    let (gap, old, new) = copy_until-splits target (idx + 1) rest (out ++ (x ∷ [])) in
    elim (Bool-cases (ltb idx target)) [
      | inl copying ↦ (x ∷ gap, ground arith, ground (arith, append_assoc out (x ∷ []) gap))
      | inr stopping ↦ ([], ground arith, ground (arith, append-nil out))
    ]

apply_hunks-pieces :
    (hunks : List Hunk) (idx : ℕ) (rest out : List Text) (c' : Cursor)
    → apply_hunks hunks (at idx rest out) ≡ ok c'
    → (ps : List Piece) × (rest ≡ old_text ps c'.rest)
      × (c'.out ≡ out ++ new_text ps [])
      × (map (λ p. p.lines) ps ≡ map (λ h. h.lines) hunks)
unfolding apply_hunks
apply_hunks-pieces [] idx rest out c' h = ([], ground arith, ground (arith, append-nil out), refl)
apply_hunks-pieces (k ∷ hunks) idx rest out c' h =
    let c = copy_until (target_of k) idx rest out in
    elim (Outcome-cases (apply_lines k.lines c)) [
      | inr (e, failed) ↦ absurd (ground arith)
      | inl (d, done) ↦
          let (gap, old, new) = copy_until-splits (target_of k) idx rest out in
          let (ps, before, after, same) =
            apply_hunks-pieces hunks d.idx d.rest d.out c' (ground arith) in
          (
            record { gap = gap; lines = k.lines } ∷ ps,
            ground (arith, apply_lines-Applied k.lines c.idx c.rest c.out d),
            ground (
              arith,
              apply_lines-Applied k.lines c.idx c.rest c.out d,
              append_assoc out gap (new_side k.lines ++ new_text ps []),
              append_assoc (out ++ gap) (new_side k.lines) (new_text ps []),
            ),
            ground arith,
          )
    ]

-- If a patch is accepted, the file is its hunks' old sides with stretches between them, and the
-- result is the hunks' new sides with the same stretches, each hunk being used once and in order.
pub apply_file_patch_sound :
    (original : List Text) (hunks : List Hunk) (new : List Text)
    → apply_file_patch original hunks ≡ ok new
    → (ps : List Piece) × (tail : List Text) × (original ≡ old_text ps tail)
      × (new ≡ new_text ps tail)
      × (map (λ p. p.lines) ps ≡ map (λ h. h.lines) hunks)
unfolding apply_file_patch
apply_file_patch_sound original hunks new h =
    elim (Outcome-cases (apply_hunks hunks (at 0 original []))) [
      | inr (e, failed) ↦ absurd (ground arith)
      | inl (c, done) ↦
          let (ps, before, after, same) = apply_hunks-pieces hunks 0 original [] c done in
          (ps, c.rest, before, ground (arith, new_text-append ps c.rest), same)
    ]

abbrev pub insertion : List Text → Text → Text → List Piece
insertion gap line v = record { gap = gap ++ (line ∷ []); lines = added v ∷ [] } ∷ []

append-injective : (xs : List Text) (ys zs : List Text) → xs ++ ys ≡ xs ++ zs → ys ≡ zs
append-injective [] ys zs h = h
append-injective (x ∷ xs) ys zs h = append-injective xs ys zs (ground arith)

insertion_early :
    (gap : List Text) (line v : Text) (tail : List Text)
    → apply_file_patch (old_text (insertion gap line v) tail) (hunks_of 0 (insertion gap line v))
      ≡ ok (gap ++ (v ∷ line ∷ tail))
unfolding apply_file_patch apply_hunks apply_lines
insertion_early gap line v tail = ground (
  arith,
  length-append gap (line ∷ []),
  append_assoc gap (line ∷ []) tail,
  copy_until-gap gap (length gap) 0 (line ∷ tail) [],
  append_assoc gap (v ∷ []) (line ∷ tail),
)

-- A hunk with no old line, as a diff without context has for an insertion, is put one line too
-- early: the line that should follow `line` stands before it. So the result is not the new side of
-- the diff, where the inserted line is another than `line`.
apply_file_patch-insertion :
    (gap : List Text) (line v : Text) (tail : List Text)
    → v ≢ line
    → (apply_file_patch (old_text (insertion gap line v) tail) (hunks_of 0 (insertion gap line v))
        ≡ ok (gap ++ (v ∷ line ∷ tail)))
      × (apply_file_patch (old_text (insertion gap line v) tail) (hunks_of 0 (insertion gap line v))
          ≢ ok (new_text (insertion gap line v) tail))
apply_file_patch-insertion gap line v tail ne = (
  insertion_early gap line v tail,
  λ same.
      let early = insertion_early gap line v tail in
      ground (
        arith,
        append_assoc gap (line ∷ []) (v ∷ tail),
        append-injective gap (v ∷ line ∷ tail) (line ∷ v ∷ tail),
      ),
)
