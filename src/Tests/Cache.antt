-- ===== src/Tests/Cache.antt =====
-- A cache with two entries, one of which is no JSON, and batches of one.
use cgraph.Prelude.{ℕ, ◌≡◌, refl, true, false, Option, none, some, List, [], ◌∷◌, map, length}
use cgraph.Text.{Text, codes, starts_with}
use cgraph.Cache.{
  Entry, Env, entry_for, cache_set_json, cache_get_json, cache_mget_json, cache_mset_json, commands,
  run_pipeline,
}
use cgraph.Cache.Reads.{in_turn, cache_mget_json-cache_get_json}

-- a stand-in for JSON: a number is written as a text of one character
abbrev loads : Text → Option ℕ
loads [] = none
loads (c ∷ []) = some c
loads (c ∷ d ∷ s) = none

abbrev without_star : Text → Text
without_star [] = []
without_star (c ∷ []) = []
without_star (c ∷ d ∷ s) = c ∷ without_star (d ∷ s)

abbrev env : Env ℕ
env = record {
  cache_enabled = true;
  default_ttl_seconds = 60;
  entry_max_bytes = 9;
  invalidate_batch_size = 1;
  dumps = λ n. n ∷ [];
  loads = loads;
  bytes = length;
  matches = λ pattern key. starts_with (without_star pattern) key;
  read_fails = false;
  write_fails = false;
  left_over = λ entries. entries;
  unlink_fails = λ keys. false;
}

abbrev entries : List Entry
entries =
    record { key = codes "stubgraph:a:1"; payload = codes "x"; ttl = 60 }
    ∷ record { key = codes "stubgraph:b"; payload = codes "bad"; ttl = 60 }
    ∷ []

abbrev keys : List (List Text)
keys = (codes "a" ∷ codes "1" ∷ []) ∷ (codes "b" ∷ []) ∷ (codes "c" ∷ []) ∷ []

written_back :
    cache_set_json env none (codes "c" ∷ []) 7 entries
    ≡ cache_mset_json env (some 0) ((codes "c" ∷ [], 7) ∷ []) entries
unfolding cache_set_json cache_mset_json entry_for commands run_pipeline
written_back = refl

cache_mget_json-cache_get_json_example :
    cache_mget_json env keys entries ≡ in_turn (map (λ ps. cache_get_json env ps entries) keys)
cache_mget_json-cache_get_json_example = cache_mget_json-cache_get_json env keys entries

never_fails : (ks : List Text) → env.unlink_fails ks ≡ false
never_fails ks = refl
