-- ===== src/Errors.antt =====
-- backend/app/errors.py: the exception classes as values, and code that may raise one of them.
-- A message of the source is a constructor of `Message`; the context dictionaries are dropped.
use cgraph.Prelude.{◌≡◌, refl, ◌⊎◌, inl, inr, Bool, true, false}

-- the values of `_ENQUEUE_REASON_KEY`
pub data EnqueueReason : Type 0 where
  timeout broker_error internal_enqueue_failure : EnqueueReason

pub data Message : Type 0 where
  bad_role no_rights_to_assign no_rights_to_change no_rights_to_remove : Message
  last_owner no_org no_member : Message
  no_job_id heavy_limit queue_check_failed : Message
  bad_access_role org_id_not_a_number org_id_required no_org_access no_orgs no_rights : Message
  token_required bad_token no_project_access no_api_key : Message
  email_required password_too_short password_required bootstrap_done user_exists : Message
  signup_disabled bad_credentials : Message
  usage_exhausted usage_exceeded project_busy no_project no_run cache_failed : Message
  cache_unread cache_unwritten cache_kept : Message
  bad_archive_format outside_root_dir too_many_files too_many_bytes too_large_file : Message
  bad_limit empty_archive too_large_archive : Message
  enqueue_failed : EnqueueReason → Message

-- `internal` is an exception that is no `AppError`, such as an `IntegrityError` that is passed on, and
-- `cancelled` is `asyncio.CancelledError`.
pub data Exception : Type 0 where
  bad_request not_found unauthorized forbidden external_service limit_exceeded locked :
      Message → Exception
  internal cancelled : Exception

pub data Result {ℓ} (A : Type ℓ) : Type ℓ where
  ok : A → Result A
  err : Exception → Result A

-- A statement that raises ends the function.
module _ {ℓ κ} {A : Type ℓ} {B : Type κ} where
  infixl 10 ◌>>=◌ ◌>>◌
  abbrev pub ◌>>=◌ : Result A → (A → Result B) → Result B
  ◌>>=◌ (err raised) rest = err raised
  ◌>>=◌ (ok value) rest = rest value

  abbrev pub ◌>>◌ : Result A → Result B → Result B
  ◌>>◌ (err raised) rest = err raised
  ◌>>◌ (ok value) rest = rest

-- `if bad: raise error`
abbrev pub raise_if : Bool → Exception → Result (Unit {0})
raise_if true e = err e
raise_if false e = ok tt

pub Result-cases {ℓ} :
    {A : Type ℓ} (r : Result A) → ((a : A) × (r ≡ ok a)) ⊎ ((e : Exception) × (r ≡ err e))
Result-cases (ok a) = inl (a, refl)
Result-cases (err e) = inr (e, refl)
