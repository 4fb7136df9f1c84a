-- ===== src/Policy/Personal.antt =====
-- The organisation of requests where authentication is off (backend/app/policy.py).
use cgraph.Prelude.{
  ℕ, ◌+◌, ◌≤◌, ◌≡◌, ◌⊎◌, inl, inr, refl, Bool, true, some, List, [], ◌∷◌, ◌++◌, ◌==◌, sym, subst,
  ap, ◌∙◌, ◌&&◌, arith, Option-cases, Bool-cases, length,
}
use cgraph.Prelude.Rows.{select, first, first-true, any, length-select-append, select-of-not-any}
use cgraph.Text.{Text, codes, text_eq}
use cgraph.Text.Number.{int_of_stripped, is_id}
use cgraph.Errors.{
  Result, ok, err, bad_request, not_found, internal, no_org, org_id_not_a_number, org_id_required,
  ◌>>=◌,
}
use cgraph.Orgs.{Organization, OrgDb}
use cgraph.Auth.{Request}
use cgraph.Policy.{
  Env, is_personal, org_header, parse_org_id, org_of_id, create_personal, count_again,
  resolve_org_id_unauth,
}

-- the unique index `uq_organization_slug`, at the slug that is created here
abbrev pub IsUniqueSlug : OrgDb → Type 0
IsUniqueSlug db = length (select is_personal db.organizations) ≤ 1

-- Other sessions are under the same index.
abbrev pub KeepsSlug : (OrgDb → OrgDb) → Type 0
KeepsSlug f = (db : OrgDb) → IsUniqueSlug db → IsUniqueSlug (f db)

abbrev pub has_org : ℕ → OrgDb → Bool
has_org id db = any (λ o. o.id == id) db.organizations

-- An organisation that was there, first or once the lock is taken, or a personal one, where there was none.
abbrev pub Answered : Env → OrgDb → ℕ → OrgDb → Type 0
Answered env before id db =
    (has_org id before ≡ true)
    ⊎ ((has_org id (env.before_lock before) ≡ true)
        ⊎ (((env.before_lock before).organizations ≡ [])
            × (any (λ o. o.id == id && is_personal o) db.organizations ≡ true)))

-- The table holds one personal organisation at most, and the organisation of an answer.
abbrev pub Resolved : Env → OrgDb → Result ℕ × OrgDb → Type 0
Resolved env before (ok id, db) =
    (IsUniqueSlug db × (has_org id db ≡ true)) × Answered env before id db
Resolved env before (err e, db) = IsUniqueSlug db

any-of-first :
    {A : Type 0} (p q : A → Bool) (xs : List A) (x : A)
    → first p xs ≡ some x
    → q x ≡ true
    → any q xs ≡ true
any-of-first p q [] x h t = ground arith
any-of-first p q (y ∷ ys) x h t = ground (arith, any-of-first p q ys x)

any-append :
    {A : Type 0} (q : A → Bool) (xs : List A) (x : A) → q x ≡ true → any q (xs ++ (x ∷ [])) ≡ true
any-append q [] x t = ground arith
any-append q (y ∷ ys) x t = ground (arith, any-append q ys x)

List-cases : {A : Type 0} (xs : List A) → (xs ≡ []) ⊎ ((x : A) × (ys : List A) × (xs ≡ x ∷ ys))
List-cases [] = inl refl
List-cases (x ∷ xs) = inr (x, xs, refl)

refl_eq : (n : ℕ) → (n == n) ≡ true
refl_eq n = ground arith

abbrev personal_org : Env → ℕ → Organization
personal_org env id = record {
  id = id;
  name = codes "Personal";
  slug = some (codes "personal");
  created_at = env.now;
}

personal_org-is_personal : (env : Env) (id : ℕ) → is_personal (personal_org env id) ≡ true
unfolding text_eq
personal_org-is_personal env id = refl

create_personal-Resolved :
    (env : Env) (before db : OrgDb)
    → KeepsSlug env.before_lookup
    → IsUniqueSlug db
    → (env.before_lock before).organizations ≡ []
    → Resolved env before (create_personal env db)
unfolding create_personal
create_personal-Resolved env before db keeps unique none_there =
    let seen = env.before_lookup db in
    let others = keeps db unique in
    elim (Bool-cases (any is_personal db.organizations)) [
      | inl there ↦ elim (Option-cases (first is_personal seen.organizations)) [
        | inl absent ↦
            let e : create_personal env db ≡ (err internal, seen) = ground arith in
            subst (Resolved env before) (sym e) others
        | inr (o, found) ↦
            let e : create_personal env db ≡ (ok o.id, seen) = ground arith in
            let mine =
              any-of-first is_personal (λ p. p.id == o.id && is_personal p) seen.organizations o
                found
                (ground (arith, refl_eq o.id, first-true is_personal seen.organizations o found)) in
            subst (Resolved env before) (sym e) (
              (
                others,
                any-of-first is_personal (λ p. p.id == o.id) seen.organizations o found
                    (refl_eq o.id),
              ),
              inr (inr (none_there, mine)),
            )
      ]
      | inr fresh ↦
          let org = personal_org env db.next_org_id in
          let db' = record db {
            organizations = db.organizations ++ (org ∷ []);
            next_org_id = db.next_org_id + 1;
          } in
          let e : create_personal env db ≡ (ok org.id, db') = ground arith in
          let is_mine : (org.id == org.id && is_personal org) ≡ true =
            ground (arith, refl_eq org.id, personal_org-is_personal env db.next_org_id) in
          subst (Resolved env before) (sym e) (
            (
              ground (
                arith,
                select-of-not-any is_personal db.organizations fresh,
                length-select-append is_personal db.organizations (org ∷ []),
              ),
              any-append (λ p. p.id == org.id) db.organizations org (refl_eq org.id),
            ),
            inr (
                inr (
                  none_there,
                  any-append (λ p. p.id == org.id && is_personal p) db.organizations org is_mine,
                )),
          )
    ]

-- what is answered where an organisation is there, or more than one is
several-Resolved :
    (env : Env) (before : OrgDb) (o : Organization) (os : List Organization) (db : OrgDb)
    (r : Result ℕ × OrgDb)
    → db.organizations ≡ o ∷ os
    → r ≡ elim os [ [] ↦ (ok o.id, db) | p ∷ ps ↦ (err (bad_request org_id_required), db) ]
    → (has_org o.id db ≡ true → Answered env before o.id db)
    → IsUniqueSlug db
    → Resolved env before r
several-Resolved env before o [] db r here e answered unique =
    let there : has_org o.id db ≡ true = ground (arith, refl_eq o.id) in
    subst (Resolved env before) (sym e) ((unique, there), answered there)
several-Resolved env before o (p ∷ ps) db r here e answered unique =
    subst (Resolved env before) (sym e) unique

count_again-Resolved :
    (env : Env) (before db : OrgDb)
    → env.before_lock before ≡ db
    → KeepsSlug env.before_flush
    → KeepsSlug env.before_lookup
    → IsUniqueSlug db
    → Resolved env before (count_again env db)
unfolding count_again
count_again-Resolved env before db locked flushes looks unique =
    elim (List-cases db.organizations) [
      | inl empty ↦
          let e : count_again env db ≡ create_personal env (env.before_flush db) = ground arith in
          subst (Resolved env before) (sym e) (
            create_personal-Resolved env before (env.before_flush db) looks (flushes db unique)
              (ap (λ d. d.organizations) locked ∙ empty))
      | inr (o, os, here) ↦
          several-Resolved env before o os db (count_again env db) here
            (ground (arith, List-cases os)) (λ there. inr (inl (ap (has_org o.id) locked ∙ there)))
            unique
    ]

abbrev named : Text → OrgDb → Result ℕ
named header db = parse_org_id header >>= λ z. org_of_id z db >>= λ org. ok org.id

named-Resolved :
    (env : Env) (header : Text) (db : OrgDb)
    → IsUniqueSlug db
    → Resolved env db (named header db, db)
named-Resolved env header db unique = elim (Option-cases (int_of_stripped header)) [
  | inl bad ↦
      let e : named header db ≡ err (bad_request org_id_not_a_number) = ground arith in
      subst (λ r. Resolved env db (r, db)) (sym e) unique
  | inr (z, number) ↦ elim (Option-cases (first (λ o. is_id z o.id) db.organizations)) [
    | inl missing ↦
        let e : named header db ≡ err (not_found no_org) = ground arith in
        subst (λ r. Resolved env db (r, db)) (sym e) unique
    | inr (o, found) ↦
        let e : named header db ≡ ok o.id = ground arith in
        subst (λ r. Resolved env db (r, db)) (sym e)
          (let there =
              any-of-first (λ p. is_id z p.id) (λ p. p.id == o.id) db.organizations o found
                (refl_eq o.id) in
            ((unique, there), inl there))
  ]
]

-- Without authentication, if the other sessions are under the unique index of the slugs as well,
-- the table holds at most one personal organisation after any request too, and an answer is the id of
-- an organisation that is there: it was there before, or once the lock was taken, or it is the personal
-- one, and then no organisation was there once the lock was taken.
pub resolve_org_id_unauth-Resolved :
    (env : Env) (request : Request) (db : OrgDb)
    → KeepsSlug env.before_lock
    → KeepsSlug env.before_flush
    → KeepsSlug env.before_lookup
    → IsUniqueSlug db
    → Resolved env db (resolve_org_id_unauth env request db)
unfolding resolve_org_id_unauth
resolve_org_id_unauth-Resolved env request db locks flushes looks unique =
    elim (Option-cases (org_header request)) [
      | inl absent ↦ elim (List-cases db.organizations) [
        | inl empty ↦
            let e : resolve_org_id_unauth env request db ≡ count_again env (env.before_lock db) =
              ground arith in
            subst (Resolved env db) (sym e) (
              count_again-Resolved env db (env.before_lock db) refl flushes looks (locks db unique))
        | inr (o, os, here) ↦
            several-Resolved env db o os db (resolve_org_id_unauth env request db) here
              (ground (arith, List-cases os)) (λ there. inl there) unique
      ]
      | inr (header, given) ↦
          let e : resolve_org_id_unauth env request db ≡ (named header db, db) = ground arith in
          subst (Resolved env db) (sym e) (named-Resolved env header db unique)
    ]
