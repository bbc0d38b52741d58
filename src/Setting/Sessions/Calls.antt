-- ===== src/Setting/Sessions/Calls.antt =====
-- Requests about sessions in any order: none makes a refresh token usable that was not.
use lingshu_round.Prelude.{
  ℕ, ◌≤◌, String, ◌≡◌, refl, ◌∙◌, Bool, true, false, ◌&&◌, Option, none, some, List, [], ◌∷◌, arith,
  if◌then◌else◌, ◌==◌, string_eq, option_eq, nat_eq,
}
use lingshu_round.Prelude.Count.{count, count_none, count_mono}
use lingshu_round.Infra.Table
use lingshu_round.Infra.Falls.{
  Falls, Falls-pure, Falls-gets, Falls-lift, Falls-require, Falls-if, Falls-raise_if, Falls-bind,
}
use lingshu_round.Setting.Accounts.{
  RefreshToken, Directory, World, Visit, has_hash, revoke, on_tokens, on_policies,
}
use lingshu_round.Setting.Sessions.{
  issue_tokens, new_token, login, logout, valid_token, refresh, switch_tenant,
}

-- one request about a session
pub data Call : Type 0 where
  log_in : String → String → Call
  log_out : Option String → Call
  renew : String → Call
  switch_to : String → Call

module _ (D : Directory) where
  unfoldable pub perform : Visit → Call → World D → World D
  perform v (log_in email password) w = (login D v email password w).1
  perform v (log_out refresh_raw) w = (logout D v refresh_raw w).1
  perform v (renew refresh_raw) w = (refresh D v refresh_raw w).1
  perform v (switch_to tenant_rid) w = (switch_tenant D v tenant_rid w).1

  -- the requests one after the other, each whatever the outcome of those before it
  unfoldable pub run : List (Visit × Call) → World D → World D
  unfolding perform
  run [] w = w
  run ((v, c) ∷ cs) w = run cs (perform v c w)

-- no request gives a token with this hash
abbrev pub IsFresh : Directory → String → List (Visit × Call) → Type 0
IsFresh D token_hash [] = Unit
IsFresh D token_hash ((v, _) ∷ cs) =
    (token_hash == D.sha256 v.raw_token ≡ false) × IsFresh D token_hash cs

abbrev pub is_unspent : String → RefreshToken → Bool
is_unspent token_hash t = has_hash token_hash t && t.revoked_at == none

module _ (D : Directory) (token_hash : String) where
  abbrev pub unspent : World D → ℕ
  unspent w = count (is_unspent token_hash) (D.tokens.rows w.tokens)

module _ (D : Directory) (L : Table.IsLawful D.tokens) (token_hash : String) where
  Falls-on_policies :
      (f : D.policies.State → D.policies.State) → Falls (unspent D token_hash) (on_policies D f)
  unfolding on_policies
  Falls-on_policies f = record { at = λ w. omega arith }

  still_unspent :
      (now : ℕ) (b : Bool) (t : RefreshToken)
      → is_unspent token_hash (if b then record t { revoked_at = some now } else t) ≡ true
      → is_unspent token_hash t ≡ true
  still_unspent now true t h = absurd (ground arith)
  still_unspent now false t h = h

  Falls-revoke :
      (other : String) (now : ℕ)
      → Falls (unspent D token_hash) (on_tokens D (revoke D.tokens other now))
  unfolding on_tokens revoke
  Falls-revoke other now = record {
    at = λ w.
        rw
          (L.count-update_where (is_unspent token_hash) (has_hash other)
            (λ t. record t { revoked_at = some now }) w.tokens)
          (count_mono _ _ _ (λ t. still_unspent now (has_hash other t) t));
  }

  pub spent_by_revoke :
      (now : ℕ) (w : World D)
      → unspent D token_hash (on_tokens D (revoke D.tokens token_hash now) w).1 ≡ 0
  unfolding on_tokens revoke
  spent_by_revoke now w =
      L.count-update_where (is_unspent token_hash) (has_hash token_hash)
        (λ t. record t { revoked_at = some now }) w.tokens
      ∙ count_none _ _ (λ t. after_revoke (has_hash token_hash t) t refl)
    where
      after_revoke :
          (b : Bool) (t : RefreshToken)
          → has_hash token_hash t ≡ b
          → is_unspent token_hash (if b then record t { revoked_at = some now } else t) ≡ false
      after_revoke true t h = ground arith
      after_revoke false t h = ground arith

  module _ (v : Visit) where
    Falls-logout :
        (refresh_raw : Option String) → Falls (unspent D token_hash) (logout D v refresh_raw)
    unfolding logout
    Falls-logout none = Falls-pure tt
    Falls-logout (some refresh_raw) =
        Falls-if (refresh_raw == "") _ _ (Falls-pure tt) (Falls-revoke (D.sha256 refresh_raw) v.now)

    module _ (fresh : token_hash == D.sha256 v.raw_token ≡ false) where
      Falls-insert :
          (user_rid tenant_rid : String)
          → Falls
              (unspent D token_hash)
              (on_tokens D (D.tokens.insert (new_token D v user_rid tenant_rid)))
      unfolding on_tokens
      Falls-insert user_rid tenant_rid = record {
        at = λ w.
            rw (L.count-insert (is_unspent token_hash) (new_token D v user_rid tenant_rid) w.tokens)
              (ground arith);
      }

      pub Falls-issue_tokens :
          (user_rid tenant_rid role : String)
          → Falls (unspent D token_hash) (issue_tokens D v user_rid tenant_rid role)
      unfolding issue_tokens
      Falls-issue_tokens user_rid tenant_rid role =
          Falls-bind _ _ (Falls-insert user_rid tenant_rid) λ _. Falls-pure _

      Falls-login :
          (email password : String) → Falls (unspent D token_hash) (login D v email password)
      unfolding login
      Falls-login email password = Falls-bind _ _ (Falls-gets _) λ found.
          Falls-bind _ _ (Falls-require _ _) λ user. Falls-bind _ _ (Falls-raise_if _ _) λ _.
            Falls-bind _ _ (Falls-gets _) λ default.
              Falls-bind _ _ (Falls-require default _) λ member.
                Falls-bind _ _ (Falls-gets _) λ found_tenant.
                  Falls-bind _ _ (Falls-require found_tenant _) λ tenant.
                    Falls-bind _ _ (Falls-on_policies _)
                      λ _. Falls-issue_tokens user.rid tenant.rid member.role

      Falls-refresh :
          (refresh_raw : String) → Falls (unspent D token_hash) (refresh D v refresh_raw)
      unfolding refresh
      Falls-refresh refresh_raw = Falls-bind _ _ (Falls-gets _) λ found.
          Falls-bind _ _ (Falls-lift (valid_token D v found)) λ t.
            Falls-bind _ _ (Falls-revoke (D.sha256 refresh_raw) v.now)
              λ _. Falls-bind _ _ (Falls-gets _) λ member. Falls-issue_tokens _ _ _

      Falls-switch_tenant :
          (tenant_rid : String) → Falls (unspent D token_hash) (switch_tenant D v tenant_rid)
      unfolding switch_tenant
      Falls-switch_tenant tenant_rid = Falls-bind _ _ (Falls-gets _) λ found.
          Falls-bind _ _ (Falls-require found _) λ member.
            Falls-bind _ _ (Falls-gets _) λ found_tenant.
              Falls-bind _ _ (Falls-require _ _)
                λ tenant. Falls-bind _ _ (Falls-on_policies _) λ _. Falls-issue_tokens _ _ _

  perform-le :
      (v : Visit) (c : Call) (w : World D)
      → token_hash == D.sha256 v.raw_token ≡ false
      → unspent D token_hash (perform D v c w) ≤ unspent D token_hash w
  unfolding perform
  perform-le v (log_in email password) w fresh = (Falls-login v fresh email password).at w
  perform-le v (log_out refresh_raw) w fresh = (Falls-logout v refresh_raw).at w
  perform-le v (renew refresh_raw) w fresh = (Falls-refresh v fresh refresh_raw).at w
  perform-le v (switch_to tenant_rid) w fresh = (Falls-switch_tenant v fresh tenant_rid).at w

  pub run-le :
      (cs : List (Visit × Call)) (w : World D)
      → IsFresh D token_hash cs
      → unspent D token_hash (run D cs w) ≤ unspent D token_hash w
  unfolding run
  run-le [] w fresh = omega arith
  run-le ((v, c) ∷ cs) w fresh =
      omega (arith, run-le cs (perform D v c w) fresh.1, perform-le v c w fresh.0)
