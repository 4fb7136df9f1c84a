-- ===== src/RateLimit/Window.antt =====
-- How many requests of one client pass in one window (backend/app/infra/rate_limit.py).
use cgraph.Prelude.{
  ℕ, ◌+◌, ◌-◌, ◌<◌, ◌≤◌, ◌≡◌, ◌⊎◌, inl, inr, refl, Bool, true, false, ◌&&◌, none, some, List, [],
  ◌∷◌, ltb, leb, if◌then◌else◌, arith, Option-cases, Bool-cases,
}
use cgraph.Prelude.Rows.{first, first-true, first-append, first-update_self, first-update_hidden}
use cgraph.Text.{Text, text_eq}
use cgraph.Text.Strip.{text_eq_iff, text_eq_refl}
use cgraph.RateLimit.{
  Counter, Server, Request, Config, has_key, run_script, get_rate_limit_lua_sha,
  run_rate_limit_increment, key_of, allow_request,
}

-- how many requests of a client are let through, of the requests of all clients in their order
unfoldable pub passed : Config → Text → List Request → Server → ℕ
passed config key [] server = 0
passed config key (r ∷ rs) server =
    let (allowed, server') = allow_request config r server in
    let later = passed config key rs server' in
    if allowed && text_eq key (key_of config r) then later + 1 else later

-- are all the requests made from `start` on, and before `stop`
abbrev pub within : ℕ → ℕ → List Request → Bool
within start stop [] = true
within start stop (r ∷ rs) = leb start r.now && ltb r.now stop && within start stop rs

-- has the counter of `key` expired at `now`, or is it missing
abbrev pub expired : ℕ → Text → List Counter → Bool
expired now key counters = elim (first (has_key key) counters) [
  | none ↦ true
  | some c ↦ leb c.deadline now
]

same_key :
    (key other : Text) (c : Counter)
    → has_key other c ≡ true
    → text_eq key other ≡ false
    → has_key key c ≡ false
same_key key other c found differ =
    ground (arith, text_eq_iff other c.key, text_eq_iff key c.key, text_eq_iff key other)

run_script_other :
    (now : ℕ) (key other : Text) (counters : List Counter)
    → text_eq key other ≡ false
    → first (has_key key) (run_script now other counters).1 ≡ first (has_key key) counters
unfolding run_script
run_script_other now key other counters differ =
    elim (Option-cases (first (has_key other) counters)) [
      | inl absent ↦ ground (
        arith,
        first-append (has_key key) counters
            (record { key = other; count = 1; deadline = now + 60 }),
        Option-cases (first (has_key key) counters),
      )
      | inr (c, found) ↦
          let hidden = same_key key other c (first-true (has_key other) counters c found) differ in
          elim (Bool-cases (ltb now c.deadline)) [
            | inl live ↦ ground (
              arith,
              first-update_hidden (has_key key) (has_key other)
                  (λ c. record c { count = c.count + 1 }) counters c found hidden,
            )
            | inr over ↦ ground (
              arith,
              first-update_hidden (has_key key) (has_key other)
                  (λ c. record c { count = 1; deadline = now + 60 }) counters c found hidden,
            )
          ]
    ]

run_script_live :
    (now : ℕ) (key : Text) (counters : List Counter) (c : Counter)
    → first (has_key key) counters ≡ some c
    → now < c.deadline
    → ((run_script now key counters).0 ≡ c.count + 1)
      × (first (has_key key) (run_script now key counters).1
          ≡ some (record c { count = c.count + 1 }))
unfolding run_script
run_script_live now key counters c found live = ground (
  arith,
  first-true (has_key key) counters c found,
  first-update_self (has_key key) (λ c. record c { count = c.count + 1 }) counters c found,
)

run_script-expired :
    (now : ℕ) (key : Text) (counters : List Counter)
    → expired now key counters ≡ true
    → ((run_script now key counters).0 ≡ 1)
      × ((c : Counter) × (first (has_key key) (run_script now key counters).1 ≡ some c)
          × (c.count ≡ 1)
          × (c.deadline ≡ now + 60))
unfolding run_script
run_script-expired now key counters over = elim (Option-cases (first (has_key key) counters)) [
  | inl absent ↦ (
    ground arith,
    (
      record { key = key; count = 1; deadline = now + 60 },
      ground (
        arith,
        first-append (has_key key) counters (record { key = key; count = 1; deadline = now + 60 }),
        text_eq_refl key,
      ),
      refl,
      refl,
    ),
  )
  | inr (c, found) ↦ (
    ground arith,
    (
      record c { count = 1; deadline = now + 60 },
      ground (
        arith,
        first-true (has_key key) counters c found,
        first-update_self (has_key key) (λ c. record c { count = 1; deadline = now + 60 }) counters
            c found,
      ),
      refl,
      refl,
    ),
  )
]

-- what a request does to the counters: nothing, or one run of the script; and when it is let through
allow_request_cases :
    (config : Config) (r : Request) (server : Server)
    → config.rate_limit_enabled ≡ true
    → ((allow_request config r server).0 ≡ false)
        × ((allow_request config r server).1.counters ≡ server.counters)
      ⊎ ((allow_request config r server).1.counters
          ≡ (run_script r.now (key_of config r) server.counters).1)
        × (((allow_request config r server).0 ≡ false)
            ⊎ ((run_script r.now (key_of config r) server.counters).0
                ≤ config.rate_limit_requests_per_minute))
unfolding allow_request run_rate_limit_increment get_rate_limit_lua_sha
allow_request_cases config r server enabled = ground arith

passed_live :
    (config : Config) (key : Text) (rs : List Request) (server : Server) (c : Counter)
    (start stop : ℕ)
    → config.rate_limit_enabled ≡ true
    → first (has_key key) server.counters ≡ some c
    → stop ≤ c.deadline
    → within start stop rs ≡ true
    → passed config key rs server ≤ config.rate_limit_requests_per_minute - c.count
unfolding passed
passed_live config key [] server c start stop enabled found open' inside = omega arith
passed_live config key (r ∷ rs) server c start stop enabled found open' inside =
    let server' = (allow_request config r server).1 in
    let bumped = record c { count = c.count + 1 } in
    elim (allow_request_cases config r server enabled) [
      | inl (refused, same) ↦
          ground
            (arith, passed_live config key rs server' c start stop enabled (ground arith) open')
      | inr (ran, outcome) ↦ elim (Bool-cases (text_eq key (key_of config r))) [
        | inl mine ↦
            let e = (text_eq_iff key (key_of config r)).0 mine in
            let (count, found') =
              run_script_live r.now key server.counters c found (ground arith) in
            ground (arith, passed_live config key rs server' bumped start stop enabled (cc) open')
        | inr other ↦
            let kept = run_script_other r.now key (key_of config r) server.counters other in
            ground
              (arith, passed_live config key rs server' c start stop enabled (ground arith) open')
      ]
    ]

-- With the limit on, of the requests of one client in a minute, when its last window is over, no more
-- than the limit are let through, whatever other clients do in between and whichever requests Redis
-- fails.
pub passed_bounds :
    (config : Config) (key : Text) (rs : List Request) (server : Server) (start : ℕ)
    → config.rate_limit_enabled ≡ true
    → expired start key server.counters ≡ true
    → within start (start + 60) rs ≡ true
    → passed config key rs server ≤ config.rate_limit_requests_per_minute
unfolding passed
passed_bounds config key [] server start enabled over inside = omega arith
passed_bounds config key (r ∷ rs) server start enabled over inside =
    let server' = (allow_request config r server).1 in
    elim (allow_request_cases config r server enabled) [
      | inl (refused, same) ↦
          ground (arith, passed_bounds config key rs server' start enabled (ground arith))
      | inr (ran, outcome) ↦ elim (Bool-cases (text_eq key (key_of config r))) [
        | inl mine ↦
            let e = (text_eq_iff key (key_of config r)).0 mine in
            let (count, (c, found, one_request, deadline)) =
              run_script-expired r.now key server.counters
                (ground (arith, Option-cases (first (has_key key) server.counters))) in
            ground (arith, passed_live config key rs server' c start (start + 60) enabled (cc))
        | inr other ↦
            let kept = run_script_other r.now key (key_of config r) server.counters other in
            ground (arith, passed_bounds config key rs server' start enabled (ground arith))
      ]
    ]
