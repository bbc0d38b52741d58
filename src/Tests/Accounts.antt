-- ===== src/Tests/Accounts.antt =====
-- Sessions and members at small inputs.
use lingshu_round.Prelude.{
  ◌≤◌, ◌<◌, ◌<>◌, String, ◌≡◌, refl, true, false, not, ◌&&◌, none, some, List, [], ◌∷◌, any, select,
  arith, ◌==◌, string_eq, option_eq,
}
use lingshu_round.Prelude.Count.{count}
use lingshu_round.Infra.Errors.{app_error, common_internal_error}
use lingshu_round.Infra.Exec.{ok, err, is_ok, ◌>>=◌}
use lingshu_round.Setting.Accounts.{
  User, Tenant, Membership, RefreshToken, PolicyEngine, Directory, World, Visit, user_by_email,
  default_membership, tenant_by_rid, on_policies, on_tokens, token_by_hash, membership, members_of,
  on_memberships, user_by_rid,
}
use lingshu_round.Setting.Sessions.{refresh, logout, login}
use lingshu_round.Setting.Sessions.Calls.{Call, log_in, log_out, renew, switch_to, run}
use lingshu_round.Setting.Sessions.SingleUse.{IsRefused, logout-IsRefused_later}
use lingshu_round.Setting.Members.{remove_member}
use lingshu_round.Setting.Members.LastAdmin.{admin_of, remove_member_keeps_admin}
use lingshu_round.Prelude.Page.{reverse}
use lingshu_round.Prelude.SortBy.{sort_by}
use lingshu_round.Setting.Users.{get_user, update_user, create_tenant}
use lingshu_round.Ontology.World.{generate_rid}
use lingshu_round.Setting.Passwords.{NewUser}
use lingshu_round.Setting.Passwords.Emails as Emails
use lingshu_round.Setting.Passwords.Emails.{creates, changes_password, has_email, run_unique_emails}
use lingshu_round.Tests.Memory.{memory_table, memory_table-IsLawful}

-- roles of users only; who is in the role "admin" may do everything
abbrev engine : PolicyEngine
engine = record {
  State = List (String × String);
  has_role = λ user role s. any (λ (r : String × String). r.0 == user && r.1 == role) s;
  add_role = λ user role s. (user, role) ∷ s;
  remove_role = λ user role s. select (λ (r : String × String). not (r.0 == user && r.1 == role)) s;
  enforce =
      λ user type action rid s. any (λ (r : String × String). r.0 == user && r.1 == "admin") s;
}

abbrev directory : Directory
directory = record {
  users = memory_table User;
  tenants = memory_table Tenant;
  memberships = memory_table Membership;
  tokens = memory_table RefreshToken;
  policies = engine;
  verify_password = λ given hash. given == hash;
  hash_password = λ given. given;
  sha256 = λ raw. raw <> "#";
  issue_access_token = λ user tenant role now. user <> "@" <> tenant;
  refresh_ttl = 100;
}

abbrev user_of : String → User
user_of rid = record {
  rid = rid;
  email = rid <> "@example.org";
  display_name = rid;
  password_hash = "secret";
  status = "active";
  created_at = 0;
  updated_at = 0;
}

abbrev member_of : String → String → Membership
member_of rid role = record {
  user_rid = rid;
  tenant_rid = "t1";
  role = role;
  is_default = true;
  created_at = 0;
}

abbrev start : World directory
start = record {
  users = user_of "ann" ∷ user_of "bob" ∷ [];
  tenants =
      record { rid = "t1"; display_name = "T"; status = "active"; created_at = 0; updated_at = 0 }
      ∷ [];
  memberships = member_of "ann" "admin" ∷ member_of "bob" "admin" ∷ [];
  tokens =
      record {
        token_hash = "r1#";
        user_rid = "ann";
        tenant_rid = "t1";
        expires_at = 100;
        revoked_at = none;
        created_at = 0;
      }
      ∷ [];
  policies = [];
}

abbrev visit : String → Visit
visit raw = record { user_id = "ann"; tenant_id = "t1"; now = 10; uuid = "u"; raw_token = raw }

-- another user logs in, the session goes on with the new token, and changes the tenant
abbrev calls : List (Visit × Call)
calls =
    (visit "r3", log_in "bob@example.org" "secret")
    ∷ (visit "r4", renew "r2")
    ∷ (visit "r5", switch_to "t1")
    ∷ (visit "r6", log_out (some "r5"))
    ∷ []

-- a token that is not revoked cannot be compared with the time
renewal_raises :
    (refresh directory (visit "r2") "r1" start).0 ≡ err (app_error common_internal_error)
unfolding refresh ◌>>=◌ token_by_hash string_eq option_eq
renewal_raises = refl

abbrev logged_out : World directory
logged_out = (logout directory (visit "r2") (some "r1") start).1

abbrev without_bob : World directory
without_bob = (remove_member directory "t1" "bob" start).1

login_bob : is_ok (login directory (visit "r3") "bob@example.org" "secret" start).0 ≡ true
unfolding login ◌>>=◌ user_by_email string_eq default_membership tenant_by_rid on_policies on_tokens
login_bob = refl

login_wrong : is_ok (login directory (visit "r3") "bob@example.org" "other" start).0 ≡ false
unfolding login ◌>>=◌ user_by_email string_eq
login_wrong = refl

logout-IsRefused_later_example :
    IsRefused
      (run directory calls logged_out)
      (refresh directory (visit "r7") "r1" (run directory calls logged_out))
unfolding string_eq
logout-IsRefused_later_example =
    logout-IsRefused_later directory (memory_table-IsLawful RefreshToken) (visit "r2") (visit "r7")
      "r1" calls start (refl, (refl, (refl, (refl, tt)))) refl

remove_member_keeps_admin_example : 0 < count (admin_of "t1") without_bob.memberships
unfolding remove_member count ◌>>=◌ membership string_eq members_of reverse sort_by on_policies
    on_memberships
remove_member_keeps_admin_example =
    remove_member_keeps_admin directory (memory_table-IsLawful Membership) "t1" "bob" start refl
      (omega arith) (omega arith)

-- the one who makes a tenant has one membership in it, as its administrator
create_tenant_ann :
    count (admin_of "ri.tenant.u") (create_tenant directory (visit "") "New" start).1.memberships
    ≡ 1
unfolding create_tenant count ◌>>=◌ on_memberships string_eq generate_rid
create_tenant_ann = refl

update_user_empty :
    is_ok
      (update_user directory
        (visit "")
        "ann"
        (record { display_name = none; status = none })
        start).0
    ≡ false
unfolding update_user ◌>>=◌
update_user_empty = refl

get_user_ann : (get_user directory (visit "") "ann" start).0 ≡ ok (user_of "ann", some "admin")
unfolding get_user ◌>>=◌ user_by_rid string_eq membership
get_user_ann = refl

abbrev newcomer : NewUser
newcomer = record {
  email = "ann@example.org";
  display_name = "Ann";
  password = "password1";
  role = "member";
}

run_unique_emails_example :
    count (has_email "ann@example.org") (
      directory.users.rows
        (Emails.run
          (λ s. true)
          directory
          ((visit "n1", creates newcomer)
            ∷ (visit "n2", changes_password "secret" "password2")
            ∷ [])
          start).users)
    ≤ 1
unfolding count string_eq
run_unique_emails_example =
    run_unique_emails (λ s. true) directory (memory_table-IsLawful User) "ann@example.org"
      ((visit "n1", creates newcomer) ∷ (visit "n2", changes_password "secret" "password2") ∷ [])
      start (omega arith)
