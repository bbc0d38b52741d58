-- ===== src/Setting/Users.antt =====
-- setting/service.py: reading and changing a user, and making a tenant.
use lingshu_round.Prelude.{String, false, not, ◌||◌, Option, none, some, is_some}
use lingshu_round.Infra.Errors.{app_error, setting_user_not_found, common_invalid_input}
use lingshu_round.Infra.Exec.{Exec, pure, gets, require, raise_if, ok, ◌>>=◌, ◌>>◌}
use lingshu_round.Ontology.World.{generate_rid}
use lingshu_round.Setting.Accounts.{
  User, Tenant, Membership, Directory, World, Visit, user_by_rid, membership, update_user_fields,
  on_users,
}
use lingshu_round.Setting.Members.{new_membership, insert_membership}

-- the fields that a request gives, none for one that it does not
pub record UserUpdate : Type 0 where
  pub display_name : Option String
  pub status : Option String

abbrev given_or : Option String → String → String
given_or none old = old
given_or (some new) old = new

abbrev pub with_fields : UserUpdate → User → User
with_fields r u = record u {
  display_name = given_or r.display_name u.display_name;
  status = given_or r.status u.status;
}

abbrev role_in : Option Membership → Option String
role_in none = none
role_in (some m) = some m.role

module _ (D : Directory) (v : Visit) where
  -- the user, and the role in the tenant of the request
  unfoldable pub get_user : String → Exec (World D) (User × Option String)
  get_user rid = do
    found ← gets (λ w. user_by_rid D.users rid w.users)
    user ← require found (app_error setting_user_not_found)
    member ← gets (λ w. membership D.memberships rid v.tenant_id w.memberships)
    pure (user, role_in member)

  unfoldable pub update_user : String → UserUpdate → Exec (World D) User
  update_user rid r = do
    raise_if (not (is_some r.display_name || is_some r.status)) (app_error common_invalid_input)
    updated ← on_users D (update_user_fields D.users rid (with_fields r) v.now)
    require updated (app_error setting_user_not_found)

  abbrev new_tenant : String → Tenant
  new_tenant display_name = record {
    rid = generate_rid "tenant" v.uuid;
    display_name = display_name;
    status = "active";
    created_at = v.now;
    updated_at = v.now;
  }

  abbrev insert_tenant : Tenant → Exec (World D) Tenant
  insert_tenant t w = (ok t, record w { tenants = D.tenants.insert t w.tenants })

  -- the creator becomes the administrator
  unfoldable pub create_tenant : String → Exec (World D) Tenant
  create_tenant display_name = do
    tenant ← insert_tenant (new_tenant display_name)
    insert_membership D v (new_membership D v v.user_id tenant.rid "admin" false)
    pure tenant
