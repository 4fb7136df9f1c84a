-- ===== src/Prelude/Rows.antt =====
-- Rows of a database table as a list: what `select(...).where(...)`, `.first()`, an update of a
-- loaded row, and `session.delete` do to them.
use Prim.Native.Nat.{◌+◌, ◌≤◌}
use mathlib.Core.Path.{◌≡◌, refl}
use mathlib.Core.Bool.{Bool, true, false}
use mathlib.Core.Option.{Option, none, some}
use mathlib.Core.List.{List, [], ◌∷◌, ◌++◌}
use native.Mathlib.Omega.{arith}
use cgraph.Prelude.Tests.{if◌then◌else◌}
use cgraph.Prelude.Lists.{length}

module _ {ℓ} {A : Type ℓ} where
  abbrev pub select : (A → Bool) → List A → List A
  select p [] = []
  select p (x ∷ xs) = let rest = select p xs in if p x then x ∷ rest else rest

  abbrev pub first : (A → Bool) → List A → Option A
  first p [] = none
  first p (x ∷ xs) = let rest = first p xs in if p x then some x else rest

  -- an assignment to the attributes of the row that `.first()` has loaded
  abbrev pub update_first : (A → Bool) → (A → A) → List A → List A
  update_first p f [] = []
  update_first p f (x ∷ xs) = let rest = update_first p f xs in if p x then f x ∷ xs else x ∷ rest

  abbrev pub delete_first : (A → Bool) → List A → List A
  delete_first p [] = []
  delete_first p (x ∷ xs) = let rest = delete_first p xs in if p x then xs else x ∷ rest

  -- is there such a row
  abbrev pub any : (A → Bool) → List A → Bool
  any p [] = false
  any p (x ∷ xs) = let rest = any p xs in if p x then true else rest

  pub first-true : (p : A → Bool) (xs : List A) (x : A) → first p xs ≡ some x → p x ≡ true
  first-true p [] x h = ground arith
  first-true p (y ∷ ys) x h = ground (arith, first-true p ys x)

  pub length-select-append :
      (p : A → Bool) (xs ys : List A)
      → length (select p (xs ++ ys)) ≡ length (select p xs) + length (select p ys)
  length-select-append p [] ys = omega arith
  length-select-append p (x ∷ xs) ys = ground (arith, length-select-append p xs ys)

  -- Deleting the row that was found takes that row's contribution from every count.
  pub length-select-delete :
      (p q : A → Bool) (xs : List A) (x : A)
      → first q xs ≡ some x
      → length (select p xs) ≡ length (select p (delete_first q xs)) + (if p x then 1 else 0)
  length-select-delete p q [] x h = ground arith
  length-select-delete p q (y ∷ ys) x h = ground (arith, length-select-delete p q ys x)

  pub length-select-update :
      (p q : A → Bool) (f : A → A) (xs : List A) (x : A)
      → first q xs ≡ some x
      → length (select p xs) + (if p (f x) then 1 else 0)
        ≡ length (select p (update_first q f xs)) + (if p x then 1 else 0)
  length-select-update p q f [] x h = ground arith
  length-select-update p q f (y ∷ ys) x h = ground (arith, length-select-update p q f ys x)

  pub length-eq-zero : (xs : List A) → length xs ≡ 0 → xs ≡ []
  length-eq-zero [] h = ground arith
  length-eq-zero (x ∷ xs) h = ground arith

  -- The row that was found is the only row that passes, if there is only one.
  pub select_only :
      (p q : A → Bool) (xs : List A) (x : A)
      → first q xs ≡ some x
      → p x ≡ true
      → length (select p xs) ≡ 1
      → select p xs ≡ x ∷ []
  select_only p q [] x h px one = ground arith
  select_only p q (y ∷ ys) x h px one =
      ground
        (arith, length-eq-zero (select p ys), length-select-delete p q ys x, select_only p q ys x)

  pub select-of-first-none : (p : A → Bool) (xs : List A) → first p xs ≡ none → select p xs ≡ []
  select-of-first-none p [] h = refl
  select-of-first-none p (x ∷ xs) h = ground (arith, select-of-first-none p xs)

  pub first-of-select-nil :
      (p : A → Bool) (xs : List A) → length (select p xs) ≡ 0 → first p xs ≡ none
  first-of-select-nil p [] h = refl
  first-of-select-nil p (x ∷ xs) h = ground (arith, first-of-select-nil p xs)

  -- Rows that `p` passes over, before and after, do not show in `select p`.
  pub select-update_hidden :
      (p q : A → Bool) (f : A → A) (xs : List A) (x : A)
      → first q xs ≡ some x
      → p x ≡ false
      → p (f x) ≡ false
      → select p (update_first q f xs) ≡ select p xs
  select-update_hidden p q f [] x h a b = refl
  select-update_hidden p q f (y ∷ ys) x h a b = ground (arith, select-update_hidden p q f ys x)

  pub select-delete_hidden :
      (p q : A → Bool) (xs : List A) (x : A)
      → first q xs ≡ some x
      → p x ≡ false
      → select p (delete_first q xs) ≡ select p xs
  select-delete_hidden p q [] x h a = refl
  select-delete_hidden p q (y ∷ ys) x h a = ground (arith, select-delete_hidden p q ys x)

  pub select-append_hidden :
      (p : A → Bool) (xs : List A) (y : A) → p y ≡ false → select p (xs ++ (y ∷ [])) ≡ select p xs
  select-append_hidden p [] y h = ground arith
  select-append_hidden p (x ∷ xs) y h = ground (arith, select-append_hidden p xs y)

  pub first-append :
      (p : A → Bool) (xs : List A) (y : A)
      → first p (xs ++ (y ∷ []))
        ≡ elim (first p xs) [ some x ↦ some x | none ↦ if p y then some y else none ]
  first-append p [] y = ground arith
  first-append p (x ∷ xs) y = ground (arith, first-append p xs y)

  pub first-update_self :
      (p : A → Bool) (f : A → A) (xs : List A) (x : A)
      → first p xs ≡ some x
      → p (f x) ≡ true
      → first p (update_first p f xs) ≡ some (f x)
  first-update_self p f [] x h a = ground arith
  first-update_self p f (y ∷ ys) x h a = ground (arith, first-update_self p f ys x)

  pub first-update_hidden :
      (p q : A → Bool) (f : A → A) (xs : List A) (x : A)
      → first q xs ≡ some x
      → p x ≡ false
      → p (f x) ≡ false
      → first p (update_first q f xs) ≡ first p xs
  first-update_hidden p q f [] x h a b = refl
  first-update_hidden p q f (y ∷ ys) x h a b = ground (arith, first-update_hidden p q f ys x)

  pub first-delete_hidden :
      (p q : A → Bool) (xs : List A) (x : A)
      → first q xs ≡ some x
      → p x ≡ false
      → first p (delete_first q xs) ≡ first p xs
  first-delete_hidden p q [] x h a = refl
  first-delete_hidden p q (y ∷ ys) x h a = ground (arith, first-delete_hidden p q ys x)

  pub select-of-not-any : (p : A → Bool) (xs : List A) → any p xs ≡ false → select p xs ≡ []
  select-of-not-any p [] h = refl
  select-of-not-any p (x ∷ xs) h = ground (arith, select-of-not-any p xs)

  pub first-of-not-any : (p : A → Bool) (xs : List A) → any p xs ≡ false → first p xs ≡ none
  first-of-not-any p [] h = refl
  first-of-not-any p (x ∷ xs) h = ground (arith, first-of-not-any p xs)

  pub update_first-append :
      (p : A → Bool) (f : A → A) (xs : List A) (y : A)
      → any p xs ≡ false
      → p y ≡ true
      → update_first p f (xs ++ (y ∷ [])) ≡ xs ++ (f y ∷ [])
  update_first-append p f [] y h q = ground arith
  update_first-append p f (x ∷ xs) y h q = ground (arith, update_first-append p f xs y)

  -- An update that makes no row pass leaves no more rows that do.
  pub length-select-update_le :
      (p q : A → Bool) (f : A → A) (xs : List A)
      → ((x : A) → p (f x) ≡ true → p x ≡ true)
      → length (select p (update_first q f xs)) ≤ length (select p xs)
  length-select-update_le p q f [] h = omega arith
  length-select-update_le p q f (x ∷ xs) h = ground (arith, h x, length-select-update_le p q f xs h)

  pub length-select-le : (p : A → Bool) (xs : List A) → length (select p xs) ≤ length xs
  length-select-le p [] = omega arith
  length-select-le p (x ∷ xs) = ground (arith, length-select-le p xs)

  -- Of the rows that are kept, those that pass `q` are those that passed it and are kept.
  pub select-select :
      (p q : A → Bool) (xs : List A) → select q (select p xs) ≡ select p (select q xs)
  select-select p q [] = refl
  select-select p q (x ∷ xs) = ground (arith, select-select p q xs)

  pub select_all :
      (p q : A → Bool) (xs : List A)
      → ((x : A) → q x ≡ true → p x ≡ true)
      → select q (select p xs) ≡ select q xs
  select_all p q [] h = refl
  select_all p q (x ∷ xs) h = ground (arith, h x, select_all p q xs h)
