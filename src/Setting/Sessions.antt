-- ===== src/Setting/Sessions.antt =====
-- setting/service.py: logging in and out, renewing the tokens of a session, changing the tenant.
pub mod Calls
pub mod SingleUse
use lingshu_round.Prelude.{
  ℕ, ◌+◌, String, Bool, true, false, not, ◌&&◌, ◌||◌, Option, none, some, List, [], ◌∷◌,
  if◌then◌else◌, ◌==◌, string_eq,
}
use lingshu_round.Infra.Errors.{
  app_error, setting_auth_invalid_credentials, setting_permission_denied, common_internal_error,
  common_not_found, setting_auth_token_expired,
}
use lingshu_round.Infra.Exec.{
  Exec, Result, ok, err, lift, ◌>>=ʳ◌, pure, gets, require, raise_if, ◌>>=◌, ◌>>◌,
}
use lingshu_round.Setting.Accounts.{
  User, Tenant, Membership, RefreshToken, Directory, World, Visit, user_by_email, tenant_by_rid,
  membership, default_membership, memberships_of, token_by_hash, is_valid, revoke, sync_user_role,
  on_tokens, on_policies,
}

-- the tokens that a request gives: the access token, and the refresh token as it is sent
pub record Tokens : Type 0 where
  pub access_token : String
  pub refresh_token : String

abbrev first : List Membership → Option Membership
first [] = none
first (m ∷ ms) = some m

module _ (D : Directory) (v : Visit) where
  -- `user is None or not verify_password(...)`
  abbrev with_password : String → Option User → Option User
  with_password password none = none
  with_password password (some u) =
      if D.verify_password password u.password_hash then some u else none

  -- the default membership, or else the first
  abbrev membership_for : String → World D → Option Membership
  membership_for user_rid w = elim (default_membership D.memberships user_rid w.memberships) [
    | none ↦ first (memberships_of D.memberships user_rid w.memberships)
    | some m ↦ some m
  ]

  abbrev new_token : String → String → RefreshToken
  new_token user_rid tenant_rid = record {
    token_hash = D.sha256 v.raw_token;
    user_rid = user_rid;
    tenant_rid = tenant_rid;
    expires_at = v.now + D.refresh_ttl;
    revoked_at = none;
    created_at = v.now;
  }

  -- the tokens for a user, a tenant and a role; the refresh token is stored as its hash
  unfoldable pub issue_tokens : String → String → String → Exec (World D) Tokens
  issue_tokens user_rid tenant_rid role = do
    on_tokens D (D.tokens.insert (new_token user_rid tenant_rid))
    pure (record {
      access_token = D.issue_access_token user_rid tenant_rid role v.now;
      refresh_token = v.raw_token;
    })

  unfoldable pub login : String → String → Exec (World D) Tokens
  unfolding issue_tokens
  login email password = do
    found ← gets (λ w. user_by_email D.users email w.users)
    user ← require (with_password password found) (app_error setting_auth_invalid_credentials)
    raise_if (user.status == "disabled") (app_error setting_permission_denied)
    default ← gets (membership_for user.rid)
    member ← require default (app_error common_internal_error)
    found_tenant ← gets (λ w. tenant_by_rid D.tenants member.tenant_rid w.tenants)
    tenant ← require found_tenant (app_error common_internal_error)
    on_policies D (sync_user_role D.policies user.rid member.role)
    issue_tokens user.rid tenant.rid member.role

  -- the revocation of the refresh token; that of the access token needs its decoded payload
  unfoldable pub logout : Option String → Exec (World D) Unit
  logout none = pure tt
  logout (some refresh_raw) =
      if refresh_raw == ""
      then pure tt
      else on_tokens D (revoke D.tokens (D.sha256 refresh_raw) v.now)

  -- `token is None or not is_valid(token)`
  abbrev pub valid_token : Option RefreshToken → Result RefreshToken
  valid_token none = err (app_error setting_auth_token_expired)
  valid_token (some t) =
      is_valid t >>=ʳ λ valid. if valid then ok t else err (app_error setting_auth_token_expired)

  abbrev role_of : Option Membership → String
  role_of none = "member"
  role_of (some m) = m.role

  -- what a valid token gives: it is revoked, and new tokens are issued
  abbrev pub renewal : String → RefreshToken → Exec (World D) Tokens
  renewal refresh_raw token = do
    on_tokens D (revoke D.tokens (D.sha256 refresh_raw) v.now)
    member ← gets (λ w. membership D.memberships token.user_rid token.tenant_rid w.memberships)
    issue_tokens token.user_rid token.tenant_rid (role_of member)

  unfoldable pub refresh : String → Exec (World D) Tokens
  unfolding issue_tokens
  refresh refresh_raw = do
    found ← gets (λ w. token_by_hash D.tokens (D.sha256 refresh_raw) w.tokens)
    token ← lift (valid_token found)
    renewal refresh_raw token

  abbrev active : Option Tenant → Option Tenant
  active none = none
  active (some t) = if t.status == "active" then some t else none

  unfoldable pub switch_tenant : String → Exec (World D) Tokens
  unfolding issue_tokens
  switch_tenant tenant_rid = do
    found ← gets (λ w. membership D.memberships v.user_id tenant_rid w.memberships)
    member ← require found (app_error setting_permission_denied)
    found_tenant ← gets (λ w. tenant_by_rid D.tenants tenant_rid w.tenants)
    tenant ← require (active found_tenant) (app_error common_not_found)
    on_policies D (sync_user_role D.policies v.user_id member.role)
    issue_tokens v.user_id tenant.rid member.role
