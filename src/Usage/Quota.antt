-- ===== src/Usage/Quota.antt =====
-- What a day's count holds, after any calls (backend/app/services/usage_service.py).
use cgraph.Prelude.{
  ℕ, suc, zero, ◌+◌, ◌≤◌, ◌≡◌, inl, inr, refl, ap, max, String, Bool, true, false, not, ◌&&◌,
  Option, none, some, List, [], ◌∷◌, ◌==◌, ltb, str_eq, eq_iff, if◌then◌else◌, arith, Option-cases,
  Bool-cases,
}
use cgraph.Prelude.Rows.{
  first, first-true, update_first, first-append, first-update_self, first-update_hidden,
}
use cgraph.Text.Number.{ℤ, pos, negsuc}
use cgraph.Errors.{Result, ok, err}
use cgraph.Usage.{
  OrgUsage, Key, is_row, count_of, is_over, positive, check_usage_limit, ensure_row,
  check_and_increment,
}

abbrev pub used : Key → List OrgUsage → ℕ
used key rows = count_of (first (is_row key) rows)

abbrev pub same_key : Key → Key → Bool
same_key k l = k.org_id == l.org_id && (k.day == l.day && str_eq k.kind l.kind)

str_eq_refl : (s : String) → str_eq s s ≡ true
str_eq_refl s = (eq_iff s s).1 refl

abbrev empty_row : Key → OrgUsage
empty_row key = record { org_id = key.org_id; day = key.day; kind = key.kind; count = 0 }

is_row-empty_row : (key : Key) → is_row key (empty_row key) ≡ true
is_row-empty_row key = ground (arith, str_eq_refl key.kind)

-- A row of one key is a row of another just if the keys are the same.
is_row_same : (k l : Key) (r : OrgUsage) → is_row l r ≡ true → is_row k r ≡ same_key k l
is_row_same k l r h =
    ground (arith, eq_iff r.kind l.kind, eq_iff r.kind k.kind, eq_iff k.kind l.kind)

used-ensure_row : (k l : Key) (rows : List OrgUsage) → used k (ensure_row l rows) ≡ used k rows
unfolding ensure_row
used-ensure_row k l rows = elim (Option-cases (first (is_row l) rows)) [
  | inr (r, found) ↦ ground arith
  | inl absent ↦
      ground
        (arith, first-append (is_row k) rows (empty_row l), Option-cases (first (is_row k) rows))
]

ensure_row-first :
    (key : Key) (rows : List OrgUsage)
    → (r : OrgUsage) × (first (is_row key) (ensure_row key rows) ≡ some r)
unfolding ensure_row
ensure_row-first key rows = elim (Option-cases (first (is_row key) rows)) [
  | inr (r, found) ↦ (r, ground arith)
  | inl absent ↦ (
    empty_row key,
    ground (arith, first-append (is_row key) rows (empty_row key), is_row-empty_row key),
  )
]

-- The check foretells what the increment does on the same rows.
pub check_usage_limit_agrees :
    (key : Key) (amount : ℤ) (limit : Option ℤ) (rows : List OrgUsage)
    → check_usage_limit key amount limit rows ≡ (check_and_increment key amount limit rows).0
unfolding check_usage_limit check_and_increment
check_usage_limit_agrees key amount limit rows = ground (arith, used-ensure_row key key rows)

-- the amount that a call has been granted
abbrev pub granted : Result (Unit {0}) → ℤ → ℕ
granted (ok _) (pos n) = n
granted (ok _) (negsuc m) = 0
granted (err e) amount = 0

used-update :
    (k l : Key) (n : ℕ) (rows : List OrgUsage) (r : OrgUsage)
    → first (is_row l) rows ≡ some r
    → used k (update_first (is_row l) (λ r. record r { count = n }) rows)
      ≡ (if same_key k l then n else used k rows)
used-update k l n rows r found = elim (Bool-cases (same_key k l)) [
  | inl same ↦
      let e : k ≡ l = ground (arith, eq_iff k.kind l.kind) in
      ground (
        arith,
        e,
        first-true (is_row l) rows r found,
        first-update_self (is_row l) (λ r. record r { count = n }) rows r found,
      )
  | inr other ↦
      let hidden = is_row_same k l r (first-true (is_row l) rows r found) in
      ground (
        arith,
        first-update_hidden (is_row k) (is_row l) (λ r. record r { count = n }) rows r found,
      )
]

positive_value : (amount : ℤ) (n : ℕ) → positive amount ≡ some n → amount ≡ pos n
positive_value (pos zero) n h = absurd (ground arith)
positive_value (pos (suc m)) n h = ground arith
positive_value (negsuc m) n h = absurd (ground arith)

positive-none : (amount : ℤ) → positive amount ≡ none → granted (ok tt) amount ≡ 0
positive-none (pos zero) h = refl
positive-none (pos (suc m)) h = absurd (ground arith)
positive-none (negsuc m) h = refl

same_used : (k l : Key) (rows : List OrgUsage) → same_key k l ≡ true → used k rows ≡ used l rows
same_used k l rows same =
    let e : k ≡ l = ground (arith, eq_iff k.kind l.kind) in ap (λ j. used j rows) e

-- Adding to one key changes the count of that key alone, by what is granted.
used-check_and_increment :
    (k key : Key) (amount : ℤ) (limit : Option ℤ) (rows : List OrgUsage)
    → used k (check_and_increment key amount limit rows).1
      ≡ used k rows
        + (if same_key k key
            then granted (check_and_increment key amount limit rows).0 amount
            else 0)
unfolding check_and_increment
used-check_and_increment k key amount limit rows = elim (Option-cases (positive amount)) [
  | inl nothing ↦ ground (arith, positive-none amount)
  | inr (n, some_amount) ↦
      let (r, found) = ensure_row-first key rows in
      ground (
        arith,
        positive_value amount n some_amount,
        used-ensure_row key key rows,
        used-ensure_row k key rows,
        same_used k key rows,
        used-update k key (used key (ensure_row key rows) + n) (ensure_row key rows) r found,
      )
]

-- a call of the increment
pub record Call : Type 0 where
  pub key : Key
  pub amount : ℤ
  pub limit : Option ℤ

unfoldable pub serve : List Call → List OrgUsage → List OrgUsage
serve [] rows = rows
serve (c ∷ calls) rows = serve calls (check_and_increment c.key c.amount c.limit rows).1

-- all that the calls are granted under a key
unfoldable pub total : Key → List Call → List OrgUsage → ℕ
total k [] rows = 0
total k (c ∷ calls) rows =
    (if same_key k c.key
      then granted (check_and_increment c.key c.amount c.limit rows).0 c.amount
      else 0)
    + total k calls (check_and_increment c.key c.amount c.limit rows).1

-- Is every call of this key made under a limit, of this much at most?
abbrev pub is_capped : ℕ → Option ℤ → Bool
is_capped cap none = false
is_capped cap (some (pos l)) = not (ltb cap l)
is_capped cap (some (negsuc m)) = true

abbrev pub all_capped : Key → ℕ → List Call → Bool
all_capped k cap [] = true
all_capped k cap (c ∷ calls) =
    (if same_key k c.key then is_capped cap c.limit else true) && all_capped k cap calls

under_cap :
    (cap : ℕ) (limit : Option ℤ) (n : ℕ)
    → is_capped cap limit ≡ true
    → is_over limit n ≡ false
    → n ≤ cap
under_cap cap none n h o = absurd (ground arith)
under_cap cap (some (pos l)) n h o = ground arith
under_cap cap (some (negsuc m)) n h o = absurd (ground arith)

check_and_increment-capped :
    (k key : Key) (amount : ℤ) (limit : Option ℤ) (rows : List OrgUsage) (cap : ℕ)
    → (if same_key k key then is_capped cap limit else true) ≡ true
    → used k (check_and_increment key amount limit rows).1 ≤ max (used k rows) cap
unfolding check_and_increment
check_and_increment-capped k key amount limit rows cap h = elim (Option-cases (positive amount)) [
  | inl nothing ↦ ground arith
  | inr (n, some_amount) ↦
      let (r, found) = ensure_row-first key rows in
      ground (
        arith,
        used-ensure_row key key rows,
        used-ensure_row k key rows,
        same_used k key rows,
        under_cap cap limit (used key rows + n),
        used-update k key (used key (ensure_row key rows) + n) (ensure_row key rows) r found,
      )
]

-- After any calls the count of a key is what it was and all that was granted under it; and if the calls
-- of that key have a limit of at most a cap, it is at most the cap, or what it was.
pub serve-quota :
    (k : Key) (calls : List Call) (rows : List OrgUsage) (cap : ℕ)
    → all_capped k cap calls ≡ true
    → (used k (serve calls rows) ≡ used k rows + total k calls rows)
      × (used k (serve calls rows) ≤ max (used k rows) cap)
unfolding serve total
serve-quota k [] rows cap h = omega arith
serve-quota k (c ∷ calls) rows cap h = ground (
  arith,
  used-check_and_increment k c.key c.amount c.limit rows,
  check_and_increment-capped k c.key c.amount c.limit rows cap,
  serve-quota k calls (check_and_increment c.key c.amount c.limit rows).1 cap,
)
