-- ===== src/Setting/Accounts.antt =====
-- setting/models.py and setting/repository/*.py: the tables of users, tenants, memberships and
-- refresh tokens; setting/authz/enforcer.py: roles of users in the policy engine.
use lingshu_round.Prelude.{
  ℕ, String, Bool, true, false, ◌&&◌, Option, none, some, List, length, select, find, if◌then◌else◌,
  ◌==◌, string_eq, option_eq, nat_eq,
}
use lingshu_round.Prelude.Page.{page, newest_first}
use lingshu_round.Infra.Errors.{app_error, common_internal_error}
use lingshu_round.Infra.Exec.{Exec, Result, ok, err}
use lingshu_round.Infra.Table.{Table}

pub record User : Type 0 where
  pub rid : String
  pub email : String
  pub display_name : String
  pub password_hash : String
  pub status : String
  pub created_at : ℕ
  pub updated_at : ℕ

-- without its configuration, which the modelled requests do not read
pub record Tenant : Type 0 where
  pub rid : String
  pub display_name : String
  pub status : String
  pub created_at : ℕ
  pub updated_at : ℕ

pub record Membership : Type 0 where
  pub user_rid : String
  pub tenant_rid : String
  pub role : String
  pub is_default : Bool
  pub created_at : ℕ

pub record RefreshToken : Type 0 where
  pub token_hash : String
  pub user_rid : String
  pub tenant_rid : String
  pub expires_at : ℕ
  pub revoked_at : Option ℕ
  pub created_at : ℕ

module _ (T : Table User) where
  unfoldable pub user_by_rid : String → T.State → Option User
  user_by_rid rid s = find (λ (u : User). u.rid == rid) (T.rows s)

  unfoldable pub user_by_email : String → T.State → Option User
  user_by_email email s = find (λ (u : User). u.email == email) (T.rows s)

  -- `update_fields(rid, **fields)`, for the change that the fields make
  unfoldable pub update_user_fields : String → (User → User) → ℕ → T.State → Option User × T.State
  unfolding user_by_rid
  update_user_fields rid change now s =
      let s' =
        T.update_where (λ (u : User). u.rid == rid) (λ u. record (change u) { updated_at = now })
          s in
      (user_by_rid rid s', s')

module _ (T : Table Tenant) where
  unfoldable pub tenant_by_rid : String → T.State → Option Tenant
  tenant_by_rid rid s = find (λ (t : Tenant). t.rid == rid) (T.rows s)

abbrev pub is_member : String → String → Membership → Bool
is_member user_rid tenant_rid m = m.user_rid == user_rid && m.tenant_rid == tenant_rid

module _ (T : Table Membership) where
  unfoldable pub membership : String → String → T.State → Option Membership
  membership user_rid tenant_rid s = find (is_member user_rid tenant_rid) (T.rows s)

  unfoldable pub default_membership : String → T.State → Option Membership
  default_membership user_rid s =
      find (λ (m : Membership). m.user_rid == user_rid && m.is_default) (T.rows s)

  unfoldable pub memberships_of : String → T.State → List Membership
  memberships_of user_rid s = select (λ (m : Membership). m.user_rid == user_rid) (T.rows s)

  unfoldable pub members_of : String → ℕ → ℕ → T.State → List Membership × ℕ
  members_of tenant_rid offset limit s =
      let base = select (λ (m : Membership). m.tenant_rid == tenant_rid) (T.rows s) in
      (page offset limit (newest_first (λ (m : Membership). m.created_at) base), length base)

  unfoldable pub update_role : String → String → String → T.State → Option Membership × T.State
  unfolding membership
  update_role user_rid tenant_rid role s =
      let s' = T.update_where (is_member user_rid tenant_rid) (λ m. record m { role = role }) s in
      (membership user_rid tenant_rid s', s')

  unfoldable pub delete_membership : String → String → T.State → T.State
  delete_membership user_rid tenant_rid s = T.delete_where (is_member user_rid tenant_rid) s

abbrev pub has_hash : String → RefreshToken → Bool
has_hash token_hash t = t.token_hash == token_hash

-- `is_valid`: the expiry, which has a time zone, is compared with a time that has none, and Python
-- raises a TypeError for that; only a token that was revoked is not compared
abbrev pub is_valid : RefreshToken → Result Bool
is_valid t = if t.revoked_at == none then err (app_error common_internal_error) else ok false

module _ (T : Table RefreshToken) where
  unfoldable pub token_by_hash : String → T.State → Option RefreshToken
  token_by_hash token_hash s = find (has_hash token_hash) (T.rows s)

  unfoldable pub revoke : String → ℕ → T.State → T.State
  revoke token_hash now s =
      T.update_where (has_hash token_hash) (λ t. record t { revoked_at = some now }) s

  unfoldable pub revoke_all_for_user : String → String → ℕ → T.State → T.State
  revoke_all_for_user user_rid tenant_rid now s =
      T.update_where
        (λ (t : RefreshToken).
          t.user_rid == user_rid && (t.tenant_rid == tenant_rid && t.revoked_at == none))
        (λ t. record t { revoked_at = some now }) s

-- The policy engine, as far as roles of users and checks need it.
pub record PolicyEngine : Type 1 where
  pub State : Type 0
  pub has_role : String → String → State → Bool
  pub add_role : String → String → State → State
  pub remove_role : String → String → State → State
  pub enforce : String → String → String → String → State → Bool

module _ (P : PolicyEngine) where
  unfoldable pub sync_user_role : String → String → P.State → P.State
  sync_user_role user_rid role s =
      if P.has_role user_rid role s then s else P.add_role user_rid role s

  unfoldable pub remove_user_role : String → String → P.State → P.State
  remove_user_role user_rid role s =
      if P.has_role user_rid role s then P.remove_role user_rid role s else s

  -- `resource_rid or "*"`
  abbrev or_any : Option String → String
  or_any none = "*"
  or_any (some rid) = if rid == "" then "*" else rid

  unfoldable pub check_permission : Bool → String → String → String → Option String → P.State → Bool
  check_permission rbac_enabled user_id resource_type action resource_rid s =
      if rbac_enabled then P.enforce user_id resource_type action (or_any resource_rid) s else true

-- The tables, the policy engine, and what the modelled requests take from libraries.
pub record Directory : Type 1 where
  pub users : Table User
  pub tenants : Table Tenant
  pub memberships : Table Membership
  pub tokens : Table RefreshToken
  pub policies : PolicyEngine
  pub verify_password : String → String → Bool
  pub hash_password : String → String
  pub sha256 : String → String
  pub issue_access_token : String → String → String → ℕ → String
  pub refresh_ttl : ℕ

pub record World (D : Directory) : Type 0 where
  pub users : D.users.State
  pub tenants : D.tenants.State
  pub memberships : D.memberships.State
  pub tokens : D.tokens.State
  pub policies : D.policies.State

-- one request: its user and tenant, the time, what `uuid4` and the secret generator give next
pub record Visit : Type 0 where
  pub user_id : String
  pub tenant_id : String
  pub now : ℕ
  pub uuid : String
  pub raw_token : String

module _ (D : Directory) where
  unfoldable pub on_users : {A : Type 0} → (D.users.State → A × D.users.State) → Exec (World D) A
  on_users f w = let (a, s) = f w.users in (ok a, record w { users = s })

  unfoldable pub on_memberships :
      {A : Type 0} → (D.memberships.State → A × D.memberships.State) → Exec (World D) A
  on_memberships f w = let (a, s) = f w.memberships in (ok a, record w { memberships = s })

  unfoldable pub on_tokens : (D.tokens.State → D.tokens.State) → Exec (World D) Unit
  on_tokens f w = (ok tt, record w { tokens = f w.tokens })

  unfoldable pub on_policies : (D.policies.State → D.policies.State) → Exec (World D) Unit
  on_policies f w = (ok tt, record w { policies = f w.policies })
