-- ===== src/Cache/Reads.antt =====
-- Many readings and writings at once do what they do one by one (backend/app/infra/cache.py).
use cgraph.Prelude.{
  ◌≡◌, inl, inr, refl, true, false, Option, none, some, List, [], ◌∷◌, map, arith, Bool-cases,
  Option-cases,
}
use cgraph.Text.{Text}
use cgraph.Errors.{Result, ok, err}
use cgraph.Cache.{
  Entry, Env, cache_key, payload_at, decoded_of, cache_get_json, non_empty,
  deserialize_cache_payloads, or_none, align, cache_mget_json,
}

module _ {J : Type 0} where
  -- the results of calls made in turn, up to the first that raises
  abbrev pub in_turn : List (Result (Option J)) → Result (List (Option J))
  in_turn [] = ok []
  in_turn (err e ∷ rs) = err e
  in_turn (ok v ∷ rs) = elim (in_turn rs) [ err e ↦ err e | ok vs ↦ ok (v ∷ vs) ]

  align-nil : (env : Env J) (ps : List (Option Text)) → align env ps [] ≡ map (decoded_of env) ps
  unfolding align
  align-nil env [] = refl
  align-nil env (none ∷ ps) = ground (arith, align-nil env ps)
  align-nil env (some p ∷ ps) = ground (arith, align-nil env ps)

  align-decoded :
      (env : Env J) (ps : List (Option Text)) (vs : List J)
      → deserialize_cache_payloads env (non_empty ps) ≡ some vs
      → align env ps vs ≡ map (decoded_of env) ps
  unfolding align deserialize_cache_payloads
  align-decoded env [] vs h = refl
  align-decoded env (none ∷ ps) vs h = ground (arith, align-decoded env ps vs)
  align-decoded env (some p ∷ ps) vs h = elim (Option-cases (env.loads p)) [
    | inl bad ↦ absurd (ground arith)
    | inr (v, good) ↦ elim (Option-cases (deserialize_cache_payloads env (non_empty ps))) [
      | inl bad ↦ absurd (ground arith)
      | inr (ws, rest) ↦ ground (arith, align-decoded env ps ws)
    ]
  ]

  align-map :
      (env : Env J) (ps : List (Option Text))
      → align env ps (or_none (deserialize_cache_payloads env (non_empty ps)))
        ≡ map (decoded_of env) ps
  align-map env ps = elim (Option-cases (deserialize_cache_payloads env (non_empty ps))) [
    | inl bad ↦ ground (arith, align-nil env ps)
    | inr (vs, good) ↦ ground (arith, align-decoded env ps vs)
  ]

  in_turn-get_disabled :
      (env : Env J) (entries : List Entry) (pss : List (List Text))
      → env.cache_enabled ≡ false
      → in_turn (map (λ ps. cache_get_json env ps entries) pss) ≡ ok (map (λ ps. none) pss)
  unfolding cache_get_json
  in_turn-get_disabled env entries [] h = refl
  in_turn-get_disabled env entries (ps ∷ pss) h =
      ground (arith, in_turn-get_disabled env entries pss)

  in_turn-get :
      (env : Env J) (entries : List Entry) (pss : List (List Text))
      → env.cache_enabled ≡ true
      → env.read_fails ≡ false
      → in_turn (map (λ ps. cache_get_json env ps entries) pss)
        ≡ ok (map (decoded_of env) (map (λ ps. payload_at entries (cache_key ps)) pss))
  unfolding cache_get_json
  in_turn-get env entries [] h k = refl
  in_turn-get env entries (ps ∷ pss) h k = ground (arith, in_turn-get env entries pss)

  -- Reading many keys at once gives what reading them one by one gives, errors included, even where some
  -- payloads are missing or no JSON.
  pub cache_mget_json-cache_get_json :
      (env : Env J) (pss : List (List Text)) (entries : List Entry)
      → cache_mget_json env pss entries ≡ in_turn (map (λ ps. cache_get_json env ps entries) pss)
  unfolding cache_mget_json cache_get_json
  cache_mget_json-cache_get_json env [] entries = refl
  cache_mget_json-cache_get_json env (ps ∷ pss) entries = elim (Bool-cases env.cache_enabled) [
    | inr off ↦ ground (arith, in_turn-get_disabled env entries (ps ∷ pss))
    | inl on ↦ elim (Bool-cases env.read_fails) [
      | inl fails ↦ ground arith
      | inr works ↦ ground (
        arith,
        in_turn-get env entries (ps ∷ pss),
        align-map env (map (λ qs. payload_at entries (cache_key qs)) (ps ∷ pss)),
      )
    ]
  ]
