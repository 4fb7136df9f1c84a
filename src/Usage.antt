-- ===== src/Usage.antt =====
-- backend/app/services/usage_service.py and entitlements_service.py: the daily quotas of an organisation.
pub mod Quota
use cgraph.Prelude.{
  ℕ, zero, suc, ◌+◌, String, Bool, true, false, ◌&&◌, Option, none, some, List, [], ◌∷◌, ◌++◌, ◌==◌,
  ltb, str_eq, if◌then◌else◌,
}
use cgraph.Prelude.Rows.{first, update_first}
use cgraph.Text.Number.{ℤ, pos, negsuc}
use cgraph.Errors.{Result, ok, err, limit_exceeded, usage_exhausted, usage_exceeded}

-- A day is a number.
pub record OrgUsage : Type 0 where
  pub org_id : ℕ
  pub day : ℕ
  pub kind : String
  pub count : ℕ

-- the unique key of a row
pub record Key : Type 0 where
  pub org_id : ℕ
  pub day : ℕ
  pub kind : String

abbrev pub is_row : Key → OrgUsage → Bool
is_row k r = r.org_id == k.org_id && (r.day == k.day && str_eq r.kind k.kind)

-- `int(row or 0)`
abbrev pub count_of : Option OrgUsage → ℕ
count_of none = 0
count_of (some r) = r.count

-- `limit is not None and current + amount > limit`, with a positive limit
abbrev pub is_over : Option ℤ → ℕ → Bool
is_over none n = false
is_over (some (pos limit)) n = ltb limit n
is_over (some (negsuc m)) n = true

-- `limit is not None and limit <= 0`
abbrev pub is_closed : Option ℤ → Bool
is_closed none = false
is_closed (some (pos zero)) = true
is_closed (some (pos (suc n))) = false
is_closed (some (negsuc m)) = true

-- the amount, where it is positive
abbrev pub positive : ℤ → Option ℕ
positive (pos zero) = none
positive (pos (suc n)) = some (suc n)
positive (negsuc m) = none

-- `check_usage_limit_async`
unfoldable pub check_usage_limit : Key → ℤ → Option ℤ → List OrgUsage → Result (Unit {0})
check_usage_limit key amount limit rows = elim (positive amount) [
  | none ↦ ok tt
  | some n ↦ elim limit [
    | none ↦ ok tt
    | some l ↦
        if is_closed (some l)
        then err (limit_exceeded usage_exhausted)
        else if is_over (some l) (count_of (first (is_row key) rows) + n)
        then err (limit_exceeded usage_exceeded)
        else ok tt
  ]
]

-- the insertion `on_conflict_do_nothing`
unfoldable pub ensure_row : Key → List OrgUsage → List OrgUsage
ensure_row key rows = elim (first (is_row key) rows) [
  | some r ↦ rows
  | none ↦ rows ++ (record { org_id = key.org_id; day = key.day; kind = key.kind; count = 0 } ∷ [])
]

-- `check_and_increment_async`; the nested transaction undoes the insertion where the limit is exceeded.
unfoldable pub check_and_increment :
    Key → ℤ → Option ℤ → List OrgUsage → Result (Unit {0}) × List OrgUsage
unfolding ensure_row
check_and_increment key amount limit rows = elim (positive amount) [
  | none ↦ (ok tt, rows)
  | some n ↦
      if is_closed limit
      then (err (limit_exceeded usage_exhausted), rows)
      else (let rows' = ensure_row key rows in
          let current = count_of (first (is_row key) rows') in
          if is_over limit (current + n)
          then (err (limit_exceeded usage_exceeded), rows)
          else (ok tt, update_first (is_row key) (λ r. record r { count = current + n }) rows'))
]

pub record OrgEntitlement : Type 0 where
  pub org_id : ℕ
  pub key : String
  pub value_int : Option ℤ
  pub value_bool : Option Bool

-- `_entitlement_rows_async` and the loop over its rows
abbrev pub is_entitlement : ℕ → String → OrgEntitlement → Bool
is_entitlement org_id key r = r.org_id == org_id && str_eq r.key key

-- `get_entitlement_bool_async`
unfoldable pub get_entitlement_bool : ℕ → String → List OrgEntitlement → Option Bool
get_entitlement_bool org_id key rows = elim (first (is_entitlement org_id key) rows) [
  | none ↦ none
  | some r ↦ r.value_bool
]

-- `get_entitlement_int_async`
unfoldable pub get_entitlement_int : ℕ → String → List OrgEntitlement → Option ℤ
get_entitlement_int org_id key rows = elim (first (is_entitlement org_id key) rows) [
  | none ↦ none
  | some r ↦ r.value_int
]
