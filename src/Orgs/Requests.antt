-- ===== src/Orgs/Requests.antt =====
-- Sequences of membership requests (backend/app/services/org_service.py).
use cgraph.Prelude.{ℕ, ◌<◌, String, List, [], ◌∷◌, length}
use cgraph.Text.{Text}
use cgraph.Orgs.{OrgDb, create_org, add_or_update_member, remove_member}
use cgraph.Orgs.Owners.{
  active_owners, add_or_update_member-owned, remove_member-owned, create_org-owned,
}

pub data Request : Type 0 where
  create : (now : ℕ) → Text → (owner : ℕ) → Request
  upsert : (now org_id user_id : ℕ) → (role actor_role : String) → Request
  remove : (org_id user_id : ℕ) → (actor_role : String) → Request

-- the database after a request, whether it ended or raised
pub handle : Request → OrgDb → OrgDb
handle (create now name owner) db = (create_org now name owner db).1
handle (upsert now org_id user_id role actor_role) db =
    (add_or_update_member now org_id user_id role actor_role db).1
handle (remove org_id user_id actor_role) db = (remove_member org_id user_id actor_role db).1

pub serve : OrgDb → List Request → OrgDb
serve db [] = db
serve db (r ∷ rs) = serve (handle r db) rs

-- After any sequence of requests, each ended or raised, an organisation that had an active owner
-- has one.
pub serve-owned :
    (db : OrgDb) (rs : List Request) (o : ℕ)
    → 0 < length (active_owners o db)
    → 0 < length (active_owners o (serve db rs))
unfolding serve handle
serve-owned db [] o h = h
serve-owned db (create now name owner ∷ rs) o h =
    serve-owned (create_org now name owner db).1 rs o (create_org-owned now name owner db o h)
serve-owned db (upsert now g u role actor ∷ rs) o h =
    serve-owned (add_or_update_member now g u role actor db).1 rs o
      (add_or_update_member-owned now g u role actor db o h)
serve-owned db (remove g u actor ∷ rs) o h =
    serve-owned (remove_member g u actor db).1 rs o (remove_member-owned g u actor db o h)
