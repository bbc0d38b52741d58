-- ===== src/Setting/Members.antt =====
-- setting/service.py: users and their memberships in tenants.
pub mod LastAdmin
use lingshu_round.Prelude.{
  ℕ, String, ◌<>◌, Bool, true, false, not, ◌&&◌, ◌||◌, Option, none, some, List, [], ◌∷◌,
  if◌then◌else◌, ◌==◌, string_eq, is_some, leb, length, select,
}
use lingshu_round.Prelude.Count.{count}
use lingshu_round.Infra.Errors.{
  app_error, setting_user_not_found, setting_user_email_exists, common_conflict, common_not_found,
  common_invalid_input, common_internal_error,
}
use lingshu_round.Infra.Exec.{ok, err, Exec, pure, gets, require, raise_if, ◌>>=◌, ◌>>◌}
use lingshu_round.Ontology.World.{generate_rid}
use lingshu_round.Setting.Accounts.{
  User, Tenant, Membership, Directory, World, Visit, user_by_rid, user_by_email, update_user_fields,
  tenant_by_rid, membership, members_of, update_role, delete_membership, sync_user_role,
  remove_user_role, on_users, on_memberships, on_policies,
}

abbrev pub is_admin : Membership → Bool
is_admin m = m.role == "admin"

module _ (D : Directory) where
  -- without the user the request raises, and the new role of the membership is rolled back; the
  -- policies are not in the database, and stay
  abbrev pub known_or_rolled_back : D.memberships.State → Option User → Exec (World D) Unit
  known_or_rolled_back committed (some _) w = (ok tt, w)
  known_or_rolled_back committed none w =
      (err (app_error setting_user_not_found), record w { memberships = committed })

  unfoldable pub update_member_role : String → String → String → Exec (World D) Membership
  update_member_role tenant_rid user_rid role = do
    found ← gets (λ w. membership D.memberships user_rid tenant_rid w.memberships)
    old ← require found (app_error common_not_found)
    committed ← gets (λ w. w.memberships)
    after ← on_memberships D (update_role D.memberships user_rid tenant_rid role)
    updated ← require after (app_error common_internal_error)
    on_policies D (remove_user_role D.policies user_rid old.role)
    on_policies D (sync_user_role D.policies user_rid role)
    user ← gets (λ w. user_by_rid D.users user_rid w.users)
    known_or_rolled_back committed user
    pure updated

  -- the admins among the members that the list gives without paging arguments
  abbrev pub listed_admins : String → World D → ℕ
  listed_admins tenant_rid w =
      count is_admin (members_of D.memberships tenant_rid 0 20 w.memberships).0

  abbrev pub drop_member : String → String → Membership → Exec (World D) Unit
  drop_member tenant_rid user_rid member = do
    on_policies D (remove_user_role D.policies user_rid member.role)
    on_memberships D (λ s. (tt, delete_membership D.memberships user_rid tenant_rid s))

  -- the last administrator stays; else the role and the membership go
  abbrev pub removal : String → String → Membership → Exec (World D) Unit
  removal tenant_rid user_rid member = do
    admins ← gets (listed_admins tenant_rid)
    raise_if (is_admin member && leb admins 1) (app_error common_invalid_input)
    drop_member tenant_rid user_rid member

  unfoldable pub remove_member : String → String → Exec (World D) Unit
  remove_member tenant_rid user_rid = do
    found ← gets (λ w. membership D.memberships user_rid tenant_rid w.memberships)
    member ← require found (app_error common_not_found)
    removal tenant_rid user_rid member

module _ (D : Directory) (v : Visit) where
  abbrev pub insert_membership : Membership → Exec (World D) Membership
  insert_membership m = on_memberships D (λ s. (m, D.memberships.insert m s))

  abbrev pub new_membership : String → String → String → Bool → Membership
  new_membership user_rid tenant_rid role is_default = record {
    user_rid = user_rid;
    tenant_rid = tenant_rid;
    role = role;
    is_default = is_default;
    created_at = v.now;
  }

  unfoldable pub add_member : String → String → String → Exec (World D) Membership
  add_member tenant_rid user_rid role = do
    tenant ← gets (λ w. tenant_by_rid D.tenants tenant_rid w.tenants)
    require tenant (app_error common_not_found)
    user ← gets (λ w. user_by_rid D.users user_rid w.users)
    require user (app_error setting_user_not_found)
    existing ← gets (λ w. membership D.memberships user_rid tenant_rid w.memberships)
    raise_if (is_some existing) (app_error common_conflict)
    added ← insert_membership (new_membership user_rid tenant_rid role false)
    on_policies D (sync_user_role D.policies user_rid role)
    pure added

  -- `delete_user`: the status only
  unfoldable pub delete_user : String → Exec (World D) Unit
  delete_user rid = do
    updated ←
        on_users D (update_user_fields D.users rid (λ u. record u { status = "disabled" }) v.now)
    require updated (app_error setting_user_not_found)
    pure tt
