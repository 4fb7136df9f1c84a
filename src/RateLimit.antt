-- ===== src/RateLimit.antt =====
-- backend/app/infra/rate_limit.py: a counter per client in Redis, for windows of a minute.
pub mod Window
use cgraph.Prelude.{
  ℕ, ◌+◌, Bool, true, false, not, ◌&&◌, ◌||◌, Option, none, some, List, [], ◌∷◌, ◌++◌, ◌==◌, ltb,
  leb, if◌then◌else◌, length,
}
use cgraph.Prelude.Rows.{first, update_first, any}
use cgraph.Text.{Text, codes, text_eq, strip, split, before_first}

-- a key of Redis with its value and the second at which it expires
pub record Counter : Type 0 where
  pub key : Text
  pub count : ℕ
  pub deadline : ℕ

-- The counters of Redis, whether its script cache has the script, and whether the process knows the
-- digest of the script.
pub record Server : Type 0 where
  pub counters : List Counter
  pub script_loaded : Bool
  pub sha_known : Bool

-- where a request meets a `RedisError`: nowhere, before the script is loaded, before it runs, or after
-- it has run
pub data Fault : Type 0 where
  no_fault before_load before_script after_script : Fault

pub record Request : Type 0 where
  pub now : ℕ
  pub client_host : Text
  pub forwarded_for : Option Text
  pub fault : Fault

-- the settings, and `ipaddress` with addresses and networks as numbers
pub record Config : Type 0 where
  pub rate_limit_enabled : Bool
  pub rate_limit_requests_per_minute : ℕ
  pub trusted_proxy_cidrs : Text
  pub ip_address : Text → Option ℕ
  pub ip_network : Text → Option ℕ
  pub in_network : ℕ → ℕ → Bool

abbrev pub is_empty : Text → Bool
is_empty [] = true
is_empty (c ∷ s) = false

-- an entry of the list of networks, none where it is empty or not a network
abbrev pub network_of : Config → Text → Option ℕ
network_of config entry = if is_empty (strip entry) then none else config.ip_network (strip entry)

-- the turns of the loops of `_parse_trusted_proxy_networks` and `_client_is_trusted_proxy`
abbrev pub in_some : Config → ℕ → List Text → Bool
in_some config ip entries =
    any (λ entry. elim (network_of config entry) [ none ↦ false | some n ↦ config.in_network n ip ])
      entries

-- `_client_is_trusted_proxy`
unfoldable pub client_is_trusted_proxy : Config → Text → Bool
client_is_trusted_proxy config client_host =
    let raw = strip config.trusted_proxy_cidrs in
    if is_empty client_host then false else elim (config.ip_address client_host) [
      | none ↦ false
      | some ip ↦ in_some config ip (split b',' (length raw) raw)
    ]

abbrev pub or_unknown : Text → Text
or_unknown client_host = if is_empty client_host then codes "unknown" else client_host

abbrev pub header_text : Option Text → Text
header_text none = []
header_text (some s) = s

-- `_client_id`
unfoldable pub client_id : Config → Request → Text
client_id config request =
    let forwarded = strip (before_first b',' (header_text request.forwarded_for)) in
    if client_is_trusted_proxy config request.client_host && not (is_empty forwarded)
    then elim (config.ip_address forwarded) [
      | some ip ↦ forwarded
      | none ↦ or_unknown request.client_host
    ]
    else or_unknown request.client_host

abbrev pub has_key : Text → Counter → Bool
has_key key c = text_eq key c.key

-- the script: `INCR`, and `EXPIRE` where the counter is new; an expired key counts as none
unfoldable pub run_script : ℕ → Text → List Counter → ℕ × List Counter
run_script now key counters =
    let fresh : Counter = record { key = key; count = 1; deadline = now + 60 } in
    elim (first (has_key key) counters) [
      | none ↦ (1, counters ++ (fresh ∷ []))
      | some c ↦
          if ltb now c.deadline
          then (
            c.count + 1,
            update_first (has_key key) (λ c. record c { count = c.count + 1 }) counters,
          )
          else (
            1,
            update_first (has_key key) (λ c. record c { count = 1; deadline = now + 60 }) counters,
          )
    ]

-- `_get_rate_limit_lua_sha`
unfoldable pub get_rate_limit_lua_sha : Server → Server
get_rate_limit_lua_sha server =
    if server.sha_known then server else record server { script_loaded = true; sha_known = true }

-- `_run_rate_limit_increment`: `evalsha`, or `eval` after a `NoScriptError`, which loads the script
unfoldable pub run_rate_limit_increment : ℕ → Text → Server → ℕ × Server
run_rate_limit_increment now key server =
    let ready = get_rate_limit_lua_sha server in
    let (count, counters') = run_script now key ready.counters in
    if ready.script_loaded
    then (count, record ready { counters = counters' })
    else (count, record { counters = counters'; script_loaded = true; sha_known = true })

-- the key of a request
abbrev pub key_of : Config → Request → Text
key_of config request = codes "stubgraph:rl:" ++ client_id config request

-- `allow_request_async`
unfoldable pub allow_request : Config → Request → Server → Bool × Server
allow_request config request server =
    let (count, server') = run_rate_limit_increment request.now (key_of config request) server in
    if not config.rate_limit_enabled then (true, server) else elim request.fault [
      | no_fault ↦ (leb count config.rate_limit_requests_per_minute, server')
      | before_load ↦ (false, server)
      | before_script ↦ (false, get_rate_limit_lua_sha server)
      | after_script ↦ (false, server')
    ]
