-- ===== src/Setting/Sessions/SingleUse.antt =====
-- A refresh token that was revoked renews no session.
use lingshu_round.Prelude.{
  String, ◌≡◌, refl, ◌∙◌, ap, false, Option, none, some, List, find, arith, if◌then◌else◌, ◌==◌,
  string_eq, option_eq, nat_eq, Bool-cases, inl, inr,
}
use lingshu_round.Prelude.Count.{count-pos_of_find, find-holds}
use lingshu_round.Infra.Errors.{app_error, setting_auth_token_expired}
use lingshu_round.Infra.Exec.{Result, err, pure, lift, ◌>>=◌}
use lingshu_round.Infra.Table
use lingshu_round.Setting.Accounts.{
  RefreshToken, Directory, World, Visit, token_by_hash, has_hash, revoke, on_tokens,
}
use lingshu_round.Setting.Sessions.{Tokens, logout, valid_token, renewal, refresh}
use lingshu_round.Setting.Sessions.Calls.{
  Call, run, IsFresh, is_unspent, unspent, spent_by_revoke, run-le,
}

-- the token is refused as invalid or expired, and nothing changes
abbrev pub IsRefused : {D : Directory} → World D → Result Tokens × World D → Type 0
IsRefused w (r, w') = (r ≡ err (app_error setting_auth_token_expired)) × (w' ≡ w)

module _ (D : Directory) (v : Visit) (refresh_raw : String) where
  valid_none :
      (found : Option RefreshToken)
      → ((t : RefreshToken) → found ≡ some t → t.revoked_at == none ≡ false)
      → valid_token D v found ≡ err (app_error setting_auth_token_expired)
  valid_none none h = refl
  valid_none (some t) h = ground (arith, h t refl)

  IsRefused-without_token :
      (w : World D)
      → valid_token D v (token_by_hash D.tokens (D.sha256 refresh_raw) w.tokens)
        ≡ err (app_error setting_auth_token_expired)
      → IsRefused w (refresh D v refresh_raw w)
  unfolding refresh ◌>>=◌
  IsRefused-without_token w h = (
    ap (λ r. ((lift r >>= renewal D v refresh_raw) w).0) h,
    ap (λ r. ((lift r >>= renewal D v refresh_raw) w).1) h,
  )

  -- a token that is found was revoked, where none is unspent
  revoked_of :
      (w : World D)
      → unspent D (D.sha256 refresh_raw) w ≡ 0
      → (t : RefreshToken)
      → find (has_hash (D.sha256 refresh_raw)) (D.tokens.rows w.tokens) ≡ some t
      → t.revoked_at == none ≡ false
  revoked_of w spent t found = elim (Bool-cases (t.revoked_at == none)) [
    | inl live ↦ absurd (
        ground (
          arith,
          find-holds (has_hash (D.sha256 refresh_raw)) (D.tokens.rows w.tokens) t found,
          count-pos_of_find (has_hash (D.sha256 refresh_raw)) (is_unspent (D.sha256 refresh_raw))
              (D.tokens.rows w.tokens) t found,
        ))
    | inr revoked ↦ revoked
  ]

  refresh-IsRefused :
      (w : World D)
      → unspent D (D.sha256 refresh_raw) w ≡ 0
      → IsRefused w (refresh D v refresh_raw w)
  unfolding token_by_hash
  refresh-IsRefused w spent = IsRefused-without_token w (valid_none _ (revoked_of w spent))

module _ (D : Directory) (L : Table.IsLawful D.tokens) (v v' : Visit) (refresh_raw : String)
    (cs : List (Visit × Call)) (w : World D) (fresh : IsFresh D (D.sha256 refresh_raw) cs) where
  IsRefused-later :
      (w' : World D)
      → unspent D (D.sha256 refresh_raw) w' ≡ 0
      → IsRefused (run D cs w') (refresh D v' refresh_raw (run D cs w'))
  IsRefused-later w' spent =
      refresh-IsRefused D v' refresh_raw _
        (omega (arith, run-le D L (D.sha256 refresh_raw) cs w' fresh))

  -- A refresh token that was given at a logout is never accepted again: whatever logins, logouts,
  -- renewals and changes of the tenant of any users follow, a renewal with it is refused as invalid
  -- or expired and changes nothing, as long as it is not empty and no token that is given out later
  -- has the same hash.
  pub logout-IsRefused_later :
      refresh_raw == "" ≡ false
      → IsRefused
          (run D cs (logout D v (some refresh_raw) w).1)
          (refresh D v' refresh_raw (run D cs (logout D v (some refresh_raw) w).1))
  unfolding logout
  logout-IsRefused_later given = IsRefused-later (logout D v (some refresh_raw) w).1 (
      ap
        (λ b.
          unspent D (D.sha256 refresh_raw)
            ((if b then pure tt else on_tokens D (revoke D.tokens (D.sha256 refresh_raw) v.now))
              w).1)
        given
      ∙ spent_by_revoke D L (D.sha256 refresh_raw) v.now w)
