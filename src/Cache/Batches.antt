-- ===== src/Cache/Batches.antt =====
-- What an invalidation takes from the cache (backend/app/infra/cache.py).
use cgraph.Prelude.{
  append-nil, append_assoc, ◌≡◌, inl, inr, refl, Bool, true, false, not, ◌&&◌, ◌||◌, List, [], ◌∷◌,
  ◌++◌, map, arith, Bool-cases,
}
use cgraph.Prelude.Rows.{select}
use cgraph.Text.{Text, codes, text_eq}
use cgraph.Text.Strip.{text_eq_iff, text_eq_refl}
use cgraph.Errors.{ok}
use cgraph.Cache.{
  Entry, Env, cache_key, has, unlink, delete_batch, delete_batches, cache_invalidate_prefix,
}

has-append : (k : Text) (xs ys : List Text) → has k (xs ++ ys) ≡ (has k xs || has k ys)
has-append k [] ys = refl
has-append k (x ∷ xs) ys = ground (arith, has-append k xs ys)

unlink-unlink :
    (xs ys : List Text) (es : List Entry) → unlink ys (unlink xs es) ≡ unlink (xs ++ ys) es
unlink-unlink xs ys [] = refl
unlink-unlink xs ys (e ∷ es) = ground (arith, has-append e.key xs ys, unlink-unlink xs ys es)

unlink-nil : (es : List Entry) → unlink [] es ≡ es
unlink-nil [] = refl
unlink-nil (e ∷ es) = ground (arith, unlink-nil es)

has-keys :
    (p : Text → Bool) (k : Text) (es : List Entry)
    → has k (map (λ e. e.key) (select (λ e. p e.key) es)) ≡ (p k && has k (map (λ e. e.key) es))
has-keys p k [] = ground arith
has-keys p k (e ∷ es) = elim (Bool-cases (text_eq k e.key)) [
  | inl same ↦
      let eq : k ≡ e.key = (text_eq_iff k e.key).0 same in ground (arith, eq, has-keys p k es)
  | inr differs ↦ ground (arith, has-keys p k es)
]

-- Is every key of these entries one of the keys?
abbrev all_in : List Entry → List Text → Bool
all_in [] ks = true
all_in (e ∷ es) ks = has e.key ks && all_in es ks

all_in-cons :
    (es : List Entry) (k : Text) (ks : List Text) → all_in es ks ≡ true → all_in es (k ∷ ks) ≡ true
all_in-cons [] k ks h = refl
all_in-cons (e ∷ es) k ks h = ground (arith, all_in-cons es k ks)

all_in-keys : (es : List Entry) → all_in es (map (λ e. e.key) es) ≡ true
all_in-keys [] = refl
all_in-keys (e ∷ es) =
    ground (arith, text_eq_refl e.key, all_in-cons es e.key (map (λ e. e.key) es), all_in-keys es)

unlink-keys :
    (p : Text → Bool) (es all : List Entry)
    → all_in es (map (λ e. e.key) all) ≡ true
    → unlink (map (λ e. e.key) (select (λ e. p e.key) all)) es ≡ select (λ e. not (p e.key)) es
unlink-keys p [] all h = refl
unlink-keys p (e ∷ es) all h = ground (arith, has-keys p e.key all, unlink-keys p es all)

module _ {J : Type 0} where
  delete_batches-unlink :
      (env : Env J) (batch ms : List Text) (es : List Entry)
      → ((keys : List Text) → env.unlink_fails keys ≡ false)
      → delete_batches env batch ms es ≡ (ok tt, unlink (batch ++ ms) es)
  unfolding delete_batches delete_batch
  delete_batches-unlink env [] [] es works = ground (arith, unlink-nil es)
  delete_batches-unlink env (k ∷ batch) [] es works =
      ground (arith, append-nil (k ∷ batch), works (k ∷ batch))
  delete_batches-unlink env batch (m ∷ ms) es works = ground (
    arith,
    works (batch ++ (m ∷ [])),
    delete_batches-unlink env [] ms (unlink (batch ++ (m ∷ [])) es) works,
    delete_batches-unlink env (batch ++ (m ∷ [])) ms es works,
    append_assoc batch m ms,
    unlink-unlink (batch ++ (m ∷ [])) ms es,
  )

  -- Whatever the size of a batch is, an invalidation removes the entries whose keys match the pattern, and
  -- no others, if the cache is on and Redis does not fail.
  cache_invalidate_prefix_removes :
      (env : Env J) (parts : List Text) (es : List Entry)
      → env.cache_enabled ≡ true
      → ((keys : List Text) → env.unlink_fails keys ≡ false)
      → cache_invalidate_prefix env parts es
        ≡ (ok tt, select (λ e. not (env.matches (cache_key parts ++ codes "*") e.key)) es)
  unfolding cache_invalidate_prefix
  cache_invalidate_prefix_removes env parts es on works =
      let p : Text → Bool = λ k. env.matches (cache_key parts ++ codes "*") k in
      ground (
        arith,
        delete_batches-unlink env [] (map (λ e. e.key) (select (λ e. p e.key) es)) es works,
        unlink-keys p es es,
        all_in-keys es,
      )
