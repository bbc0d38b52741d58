-- ===== src/Setting/Passwords/Emails.antt =====
-- No two users have one email.
use lingshu_round.Prelude.{
  ℕ, ◌+◌, ◌≤◌, String, ◌≡◌, refl, inl, inr, Bool-cases, Bool, true, false, Option, none, some,
  is_some, List, [], ◌∷◌, arith, if◌then◌else◌, ◌==◌, string_eq,
}
use lingshu_round.Prelude.Count.{count, one_if, one_if-le, count_mono, count_of_find-none}
use lingshu_round.Infra.Errors.{
  app_error, AppError, setting_user_email_exists, common_invalid_input,
}
use lingshu_round.Infra.Exec.{raise_if, gets, ◌>>=◌, ◌>>◌}
use lingshu_round.Infra.Falls.{
  Falls, Falls-pure, Falls-gets, Falls-require, Falls-raise_if, Falls-bind,
}
use lingshu_round.Infra.Table
use lingshu_round.Setting.Accounts.{
  User, Directory, World, Visit, user_by_email, update_user_fields, on_users, on_memberships,
  on_policies,
}
use lingshu_round.Setting.Members.{delete_user}
use lingshu_round.Setting.Users.{UserUpdate, with_fields, update_user}
use lingshu_round.Setting.Passwords.{
  NewUser, validate_password_strength, with_password_hash, change_password, reset_password,
  new_user, insert_user, enter, create_user,
}

-- one request that writes users
pub data Call : Type 0 where
  creates : NewUser → Call
  updates : String → UserUpdate → Call
  changes_password : String → String → Call
  resets_password : String → String → Call
  disables : String → Call

module _ (matches_pattern : String → Bool) (D : Directory) where
  unfoldable pub perform : Visit → Call → World D → World D
  perform v (creates n) w = (create_user matches_pattern D v n w).1
  perform v (updates rid u) w = (update_user D v rid u w).1
  perform v (changes_password current new) w = (change_password matches_pattern D v current new w).1
  perform v (resets_password rid new) w = (reset_password matches_pattern D v rid new w).1
  perform v (disables rid) w = (delete_user D v rid w).1

  unfoldable pub run : List (Visit × Call) → World D → World D
  unfolding perform
  run [] w = w
  run ((v, c) ∷ cs) w = run cs (perform v c w)

abbrev pub has_email : String → User → Bool
has_email email u = u.email == email

module _ (matches_pattern : String → Bool) (D : Directory) (L : Table.IsLawful D.users)
    (email : String) where
  abbrev using : World D → ℕ
  using w = count (has_email email) (D.users.rows w.users)

  same_email :
      (b : Bool) (f : User → User) (u : User)
      → (f u).email ≡ u.email
      → has_email email (if b then f u else u) ≡ true
      → has_email email u ≡ true
  same_email true f u e h = ground arith
  same_email false f u e h = h

  Falls-update_fields :
      (rid : String) (change : User → User) (now : ℕ)
      → ((u : User) → (change u).email ≡ u.email)
      → Falls using (on_users D (update_user_fields D.users rid change now))
  unfolding on_users update_user_fields
  Falls-update_fields rid change now same = record {
    at = λ w.
        rw
          (L.count-update_where (has_email email) (λ (u : User). u.rid == rid)
            (λ u. record (change u) { updated_at = now }) w.users)
          (count_mono _ _ _ (λ u.
            same_email (u.rid == rid) (λ u. record (change u) { updated_at = now }) u (same u)));
  }

  module _ (v : Visit) where
    Falls-enter : (role : String) (user : User) → Falls using (enter matches_pattern D v role user)
    unfolding on_memberships on_policies
    Falls-enter role user =
        Falls-bind _ _ (record { at = λ w. omega arith })
          λ _. Falls-bind _ _ (record { at = λ w. omega arith }) λ _. Falls-pure user

    insert-le :
        (n : NewUser) (b : Bool) (e : AppError) (w : World D)
        → using
            ((raise_if b e
                >> (insert_user matches_pattern D v (new_user matches_pattern D v n) >>= λ user.
                    enter matches_pattern D v n.role user))
              w).1
          ≤ one_if (n.email == email) + using w
    unfolding raise_if on_users ◌>>=◌
    insert-le n true e w = omega arith
    insert-le n false e w = omega (
      arith,
      (Falls-enter n.role (new_user matches_pattern D v n)).at
          (record w { users = D.users.insert (new_user matches_pattern D v n) w.users }),
      L.count-insert (has_email email) (new_user matches_pattern D v n) w.users,
    )

    checked-le :
        (n : NewUser) (o : Option User) (b : Bool) (e e' : AppError) (w : World D)
        → user_by_email D.users n.email w.users ≡ o
        → using w ≤ 1
        → using
            ((raise_if (is_some o) e
                >> (raise_if b e'
                    >> (insert_user matches_pattern D v (new_user matches_pattern D v n) >>= λ user.
                        enter matches_pattern D v n.role user)))
              w).1
          ≤ 1
    unfolding user_by_email raise_if ◌>>=◌
    checked-le n none b e e' w free one =
        let le = insert-le n b e' w in
        elim (Bool-cases (n.email == email)) [
          | inl same ↦ omega (
            arith,
            le,
            one_if-le (n.email == email),
            count_of_find-none (has_email n.email) (D.users.rows w.users) free,
            count_mono (has_email email) (has_email n.email) (D.users.rows w.users)
                (λ u h. ground arith),
          )
          | inr other ↦ ground (arith, le)
        ]
    checked-le n (some u) b e e' w found one = one

    Falls-rewrite :
        (rid password : String)
        → Falls using (
            on_users D (
              update_user_fields D.users rid
                (with_password_hash matches_pattern D v password)
                v.now))
    Falls-rewrite rid password = Falls-update_fields rid _ v.now (λ u. refl)

    create-le :
        (n : NewUser) (w : World D)
        → using w ≤ 1
        → using (create_user matches_pattern D v n w).1 ≤ 1
    unfolding create_user gets ◌>>=◌
    create-le n w one =
        checked-le n (user_by_email D.users n.email w.users)
          (is_some (validate_password_strength matches_pattern n.password))
          (app_error setting_user_email_exists) (app_error common_invalid_input) w refl one

    Falls-update_user : (rid : String) (u : UserUpdate) → Falls using (update_user D v rid u)
    unfolding update_user
    Falls-update_user rid u = Falls-bind _ _ (Falls-raise_if _ _) λ _.
        Falls-bind _ _ (Falls-update_fields rid (with_fields u) v.now (λ u. refl))
          λ updated. Falls-require updated _

    Falls-change_password :
        (current new : String) → Falls using (change_password matches_pattern D v current new)
    unfolding change_password
    Falls-change_password current new = Falls-bind _ _ (Falls-gets _) λ found.
        Falls-bind _ _ (Falls-require found _) λ user. Falls-bind _ _ (Falls-raise_if _ _) λ _.
          Falls-bind _ _ (Falls-raise_if _ _)
            λ _. Falls-bind _ _ (Falls-rewrite user.rid new) λ _. Falls-pure tt

    Falls-reset_password :
        (rid new : String) → Falls using (reset_password matches_pattern D v rid new)
    unfolding reset_password
    Falls-reset_password rid new =
        Falls-bind _ _ (Falls-raise_if _ _)
          λ _. Falls-bind _ _ (Falls-rewrite rid new) λ updated. Falls-raise_if _ _

    Falls-delete_user : (rid : String) → Falls using (delete_user D v rid)
    unfolding delete_user
    Falls-delete_user rid =
        Falls-bind _ _
          (Falls-update_fields rid (λ u. record u { status = "disabled" }) v.now (λ u. refl))
          λ updated. Falls-bind _ _ (Falls-require updated _) λ _. Falls-pure tt

    perform-le :
        (c : Call) (w : World D) → using w ≤ 1 → using (perform matches_pattern D v c w) ≤ 1
    unfolding perform
    perform-le (creates n) w one = create-le n w one
    perform-le (updates rid u) w one = omega (arith, (Falls-update_user rid u).at w)
    perform-le (changes_password current new) w one =
        omega (arith, (Falls-change_password current new).at w)
    perform-le (resets_password rid new) w one = omega (arith, (Falls-reset_password rid new).at w)
    perform-le (disables rid) w one = omega (arith, (Falls-delete_user rid).at w)

  -- An email that at most one user has is never given to a second one, whatever users are created,
  -- changed and disabled, and whatever passwords are changed, one request after the other.
  pub run_unique_emails :
      (cs : List (Visit × Call)) (w : World D)
      → count (has_email email) (D.users.rows w.users) ≤ 1
      → count (has_email email) (D.users.rows (run matches_pattern D cs w).users) ≤ 1
  unfolding run
  run_unique_emails [] w one = one
  run_unique_emails ((v, c) ∷ cs) w one =
      run_unique_emails cs (perform matches_pattern D v c w) (perform-le v c w one)
