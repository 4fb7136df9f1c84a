-- ===== src/Cache.antt =====
-- backend/app/infra/cache.py: JSON values under text keys in Redis. Entries that have outlived their time
-- are no longer there. `json`, UTF-8, the patterns of SCAN and the failures of Redis are parameters.
pub mod Batches
pub mod Reads
use cgraph.Prelude.{
  ℕ, ◌+◌, Bool, true, false, not, ◌&&◌, Option, none, some, List, [], ◌∷◌, ◌++◌, map, length, ◌==◌,
  ltb, leb, if◌then◌else◌,
}
use cgraph.Prelude.Rows.{select, first, any}
use cgraph.Text.{Text, codes, text_eq}
use cgraph.Errors.{
  Result, ok, err, external_service, cache_unread, cache_unwritten, cache_kept, ◌>>=◌,
}

pub record Entry : Type 0 where
  pub key : Text
  pub payload : Text
  pub ttl : ℕ

-- The settings; `dumps`, `loads` (none is a `JSONDecodeError`) and the number of bytes of a text; does
-- a key match a pattern; does a reading or a writing fail, and what does a failed writing leave; does
-- `unlink` fail on these keys.
pub record Env (J : Type 0) : Type 0 where
  pub cache_enabled : Bool
  pub default_ttl_seconds : ℕ
  pub entry_max_bytes : ℕ
  pub invalidate_batch_size : ℕ
  pub dumps : J → Text
  pub loads : Text → Option J
  pub bytes : Text → ℕ
  pub matches : Text → Text → Bool
  pub read_fails : Bool
  pub write_fails : Bool
  pub left_over : List Entry → List Entry
  pub unlink_fails : List Text → Bool

-- `":".join(parts)`
abbrev pub join : List Text → Text
join [] = []
join (p ∷ []) = p
join (p ∷ q ∷ ps) = p ++ (codes ":" ++ join (q ∷ ps))

-- `_cache_key`
unfoldable pub cache_key : List Text → Text
cache_key parts = codes "stubgraph:" ++ join parts

abbrev pub under : Text → Entry → Bool
under key e = text_eq key e.key

-- `GET`; an empty text counts as nothing
abbrev pub not_blank : Text → Option Text
not_blank [] = none
not_blank (c ∷ s) = some (c ∷ s)

abbrev pub payload_at : List Entry → Text → Option Text
payload_at entries key = elim (first (under key) entries) [
  | none ↦ none
  | some e ↦ not_blank e.payload
]

-- `SETEX`
abbrev pub setex : Entry → List Entry → List Entry
setex e entries = e ∷ select (λ x. not (under e.key x)) entries

-- `int(ttl_seconds or default)`
abbrev pub ttl_of : ℕ → Option ℕ → ℕ
ttl_of default none = default
ttl_of default (some n) = if n == 0 then default else n

abbrev pub has : Text → List Text → Bool
has k ks = any (text_eq k) ks

-- `UNLINK`, or a pipeline of `DEL` where the server does not know it
abbrev pub unlink : List Text → List Entry → List Entry
unlink keys entries = select (λ e. not (has e.key keys)) entries

-- `[payload for payload in payloads if payload]`
abbrev pub non_empty : List (Option Text) → List Text
non_empty [] = []
non_empty (none ∷ ps) = non_empty ps
non_empty (some p ∷ ps) = p ∷ non_empty ps

abbrev pub execute : List Entry → List Entry → List Entry
execute [] entries = entries
execute (e ∷ es) entries = execute es (setex e entries)

module _ {J : Type 0} where
  -- what a payload stands for
  abbrev pub decoded_of : Env J → Option Text → Option J
  decoded_of env none = none
  decoded_of env (some p) = env.loads p

  -- `cache_get_json_async`
  unfoldable pub cache_get_json : Env J → List Text → List Entry → Result (Option J)
  unfolding cache_key
  cache_get_json env parts entries =
      if not env.cache_enabled
      then ok none
      else if env.read_fails
      then err (external_service cache_unread)
      else ok (decoded_of env (payload_at entries (cache_key parts)))

  -- the entry that is written, if it is not too large
  unfoldable pub entry_for : Env J → Option ℕ → List Text → J → Option Entry
  unfolding cache_key
  entry_for env ttl_seconds parts payload =
      let text = env.dumps payload in
      if ltb env.entry_max_bytes (env.bytes text)
      then none
      else some (record {
        key = cache_key parts;
        payload = text;
        ttl = ttl_of env.default_ttl_seconds ttl_seconds;
      })

  -- `cache_set_json_async`
  unfoldable pub cache_set_json :
      Env J → Option ℕ → List Text → J → List Entry → Result (Unit {0}) × List Entry
  unfolding entry_for
  cache_set_json env ttl_seconds parts payload entries =
      if not env.cache_enabled
      then (ok tt, entries)
      else elim (entry_for env ttl_seconds parts payload) [
        | none ↦ (ok tt, entries)
        | some e ↦
            if env.write_fails
            then (err (external_service cache_unwritten), env.left_over entries)
            else (ok tt, setex e entries)
      ]

  -- `_deserialize_cache_payloads`, in which one bad payload raises
  unfoldable pub deserialize_cache_payloads : Env J → List Text → Option (List J)
  deserialize_cache_payloads env [] = some []
  deserialize_cache_payloads env (p ∷ ps) = elim (env.loads p) [
    | none ↦ none
    | some v ↦ elim (deserialize_cache_payloads env ps) [ none ↦ none | some vs ↦ some (v ∷ vs) ]
  ]

  abbrev pub or_none : Option (List J) → List J
  or_none none = []
  or_none (some vs) = vs

  -- the loop over the payloads; the list is `decoded_non_empty` from `decoded_index` on
  unfoldable pub align : Env J → List (Option Text) → List J → List (Option J)
  align env [] vs = []
  align env (none ∷ ps) vs = none ∷ align env ps vs
  align env (some p ∷ ps) [] = env.loads p ∷ align env ps []
  align env (some p ∷ ps) (v ∷ vs) = some v ∷ align env ps vs

  -- `cache_mget_json_async`
  unfoldable pub cache_mget_json : Env J → List (List Text) → List Entry → Result (List (Option J))
  unfolding cache_key deserialize_cache_payloads align
  cache_mget_json env [] entries = ok []
  cache_mget_json env (parts ∷ more) entries =
      let payloads = map (λ ps. payload_at entries (cache_key ps)) (parts ∷ more) in
      if not env.cache_enabled
      then ok (map (λ ps. none) (parts ∷ more))
      else if env.read_fails
      then err (external_service cache_unread)
      else ok (align env payloads (or_none (deserialize_cache_payloads env (non_empty payloads))))

  -- the commands of the pipeline
  unfoldable pub commands : Env J → Option ℕ → List (List Text × J) → List Entry
  unfolding entry_for
  commands env ttl_seconds [] = []
  commands env ttl_seconds ((parts, payload) ∷ more) =
      let rest = commands env ttl_seconds more in
      elim (entry_for env ttl_seconds parts payload) [ none ↦ rest | some e ↦ e ∷ rest ]

  -- `pipeline.execute()`, which asks nothing of Redis where there are no commands
  unfoldable pub run_pipeline : Env J → List Entry → List Entry → Result (Unit {0}) × List Entry
  run_pipeline env [] entries = (ok tt, entries)
  run_pipeline env (e ∷ es) entries =
      if env.write_fails
      then (err (external_service cache_unwritten), env.left_over entries)
      else (ok tt, execute (e ∷ es) entries)

  -- `cache_mset_json_async`
  unfoldable pub cache_mset_json :
      Env J → Option ℕ → List (List Text × J) → List Entry → Result (Unit {0}) × List Entry
  unfolding commands run_pipeline
  cache_mset_json env ttl_seconds pairs entries =
      if not env.cache_enabled
      then (ok tt, entries)
      else run_pipeline env (commands env ttl_seconds pairs) entries

  -- `_delete_batch`
  unfoldable pub delete_batch : Env J → List Text → List Entry → Result (Unit {0}) × List Entry
  delete_batch env keys entries =
      if env.unlink_fails keys
      then (err (external_service cache_kept), entries)
      else (ok tt, unlink keys entries)

  -- the loop over the keys that SCAN gives, with the batch, and the last batch after it
  unfoldable pub delete_batches :
      Env J → List Text → List Text → List Entry → Result (Unit {0}) × List Entry
  unfolding delete_batch
  delete_batches env [] [] entries = (ok tt, entries)
  delete_batches env (k ∷ batch) [] entries = delete_batch env (k ∷ batch) entries
  delete_batches env batch (m ∷ ms) entries =
      let full = batch ++ (m ∷ []) in
      let (done, entries') = delete_batch env full entries in
      let next = delete_batches env [] ms entries' in
      let later = delete_batches env full ms entries in
      if leb env.invalidate_batch_size (length full)
      then elim done [ err e ↦ (err e, entries') | ok _ ↦ next ]
      else later

  -- `cache_invalidate_prefix_async`; SCAN is taken to give the keys that match when it begins.
  unfoldable pub cache_invalidate_prefix :
      Env J → List Text → List Entry → Result (Unit {0}) × List Entry
  unfolding cache_key
  cache_invalidate_prefix env parts entries =
      if not env.cache_enabled
      then (ok tt, entries)
      else delete_batches env []
          (map (λ e. e.key)
            (select (λ e. env.matches (cache_key parts ++ codes "*") e.key) entries))
          entries
