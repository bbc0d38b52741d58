-- ===== src/Setting/Passwords.antt =====
-- setting/service.py and setting/auth/password.py: creating users, and their passwords.
pub mod Emails
use lingshu_round.Prelude.{
  ℕ, String, Bool, true, not, Option, none, some, is_some, ltb, if◌then◌else◌,
}
use lingshu_round.Prelude.Text.{characters}
use lingshu_round.Infra.Errors.{
  app_error, common_invalid_input, setting_user_not_found, setting_user_email_exists,
  setting_auth_invalid_credentials,
}
use lingshu_round.Infra.Exec.{Exec, pure, gets, require, raise_if, ◌>>=◌, ◌>>◌}
use lingshu_round.Ontology.World.{generate_rid}
use lingshu_round.Setting.Accounts.{
  User, Directory, World, Visit, user_by_rid, user_by_email, update_user_fields, sync_user_role,
  on_users, on_policies,
}
use lingshu_round.Setting.Members.{new_membership, insert_membership}

pub record NewUser : Type 0 where
  pub email : String
  pub display_name : String
  pub password : String
  pub role : String

abbrev pub password_min_length : ℕ
password_min_length = 8

-- `PASSWORD_PATTERN.match` is a parameter.
module _ (matches_pattern : String → Bool) where
  unfoldable pub validate_password_strength : String → Option String
  validate_password_strength password =
      if ltb (characters password) password_min_length
      then some "Password must be at least 8 characters"
      else if matches_pattern password
      then none
      else some "Password must contain at least one letter and one number"

  module _ (D : Directory) (v : Visit) where
    abbrev pub with_password_hash : String → User → User
    with_password_hash password u = record u { password_hash = D.hash_password password }

    unfoldable pub change_password : String → String → Exec (World D) Unit
    unfolding validate_password_strength
    change_password current_password new_password = do
      found ← gets (λ w. user_by_rid D.users v.user_id w.users)
      user ← require found (app_error setting_user_not_found)
      raise_if (not (D.verify_password current_password user.password_hash))
          (app_error setting_auth_invalid_credentials)
      raise_if (is_some (validate_password_strength new_password)) (app_error common_invalid_input)
      on_users D (update_user_fields D.users user.rid (with_password_hash new_password) v.now)
      pure tt

    unfoldable pub reset_password : String → String → Exec (World D) Unit
    unfolding validate_password_strength
    reset_password rid new_password = do
      raise_if (is_some (validate_password_strength new_password)) (app_error common_invalid_input)
      updated ← on_users D (update_user_fields D.users rid (with_password_hash new_password) v.now)
      raise_if (not (is_some updated)) (app_error setting_user_not_found)

    abbrev pub new_user : NewUser → User
    new_user n = record {
      rid = generate_rid "user" v.uuid;
      email = n.email;
      display_name = n.display_name;
      password_hash = D.hash_password n.password;
      status = "active";
      created_at = v.now;
      updated_at = v.now;
    }

    -- `UserRepository.create`
    abbrev pub insert_user : User → Exec (World D) User
    insert_user u = on_users D (λ s. (u, D.users.insert u s))

    -- the membership and the role of a new user
    abbrev pub enter : String → User → Exec (World D) User
    enter role user = do
      insert_membership D v (new_membership D v user.rid v.tenant_id role true)
      on_policies D (sync_user_role D.policies user.rid role)
      pure user

    unfoldable pub create_user : NewUser → Exec (World D) User
    unfolding validate_password_strength
    create_user n = do
      existing ← gets (λ w. user_by_email D.users n.email w.users)
      raise_if (is_some existing) (app_error setting_user_email_exists)
      raise_if (is_some (validate_password_strength n.password)) (app_error common_invalid_input)
      user ← insert_user (new_user n)
      enter n.role user
