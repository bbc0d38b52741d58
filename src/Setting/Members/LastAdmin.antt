-- ===== src/Setting/Members/LastAdmin.antt =====
-- A tenant that has an administrator keeps one when a member is removed.
use lingshu_round.Prelude.{
  ℕ, ◌≤◌, ◌<◌, ◌+◌, String, ◌≡◌, refl, Bool, true, false, not, ◌&&◌, Option, none, some, List, [],
  ◌∷◌, arith, leb, select, find, ◌==◌, string_eq, Bool-cases, inl, inr,
}
use lingshu_round.Prelude.Page.{count-page-le}
use lingshu_round.Prelude.Count.{count, count-select}
use lingshu_round.Infra.Errors.{app_error, common_not_found, common_invalid_input}
use lingshu_round.Infra.Exec.{is_ok, require, raise_if, ◌>>=◌, ◌>>◌}
use lingshu_round.Infra.Table
use lingshu_round.Setting.Accounts.{
  Membership, Directory, World, is_member, membership, members_of, delete_membership,
  on_memberships, on_policies,
}
use lingshu_round.Setting.Members.{is_admin, listed_admins, remove_member, removal, drop_member}

-- the administrators of a tenant
abbrev pub admin_of : String → Membership → Bool
admin_of tenant_rid m = m.tenant_rid == tenant_rid && is_admin m

-- Deleting rows of which there is at most one takes at most one row of any kind.
module _ {A : Type 0} where
  count-deleted-le :
      (p q : A → Bool) (xs : List A) → count p xs ≤ count (λ a. not (q a) && p a) xs + count q xs
  unfolding count
  count-deleted-le p q [] = omega arith
  count-deleted-le p q (x ∷ xs) = ground (arith, count-deleted-le p q xs)

  -- Where the only row to delete fails a test, the deletion takes no row that passes it.
  count-others-le :
      (p q : A → Bool) (xs : List A) (a : A)
      → find q xs ≡ some a
      → p a ≡ false
      → count q xs ≤ 1
      → count p xs ≤ count (λ b. not (q b) && p b) xs
  unfolding count
  count-others-le p q [] a h e k = omega arith
  count-others-le p q (x ∷ xs) a h e k =
      ground (arith, count-others-le p q xs a, count-deleted-le p q xs)

module _ (D : Directory) (tenant_rid : String) where
  -- The list shows no administrator that the tenant does not have.
  listed_admins-le :
      (w : World D)
      → listed_admins D tenant_rid w
        ≤ count (admin_of tenant_rid) (D.memberships.rows w.memberships)
  unfolding members_of
  listed_admins-le w =
      let of_tenant = λ (m : Membership). m.tenant_rid == tenant_rid in
      let base = select of_tenant (D.memberships.rows w.memberships) in
      omega (
        arith,
        count-page-le (λ (m : Membership). m.created_at) 0 20 is_admin base,
        count-select is_admin of_tenant (D.memberships.rows w.memberships),
      )

  -- what an accepted removal leaves
  admin_left :
      (user_rid : String) (rows : List Membership) (m : Membership) (listed : ℕ)
      → find (is_member user_rid tenant_rid) rows ≡ some m
      → count (is_member user_rid tenant_rid) rows ≤ 1
      → listed ≤ count (admin_of tenant_rid) rows
      → (is_admin m && leb listed 1) ≡ false
      → 0 < count (admin_of tenant_rid) rows
      → 0 < count (λ a. not (is_member user_rid tenant_rid a) && admin_of tenant_rid a) rows
  admin_left user_rid rows m listed found one few guard some_admin =
      elim (Bool-cases (is_admin m)) [
        | inl admin ↦
            ground
              (arith, count-deleted-le (admin_of tenant_rid) (is_member user_rid tenant_rid) rows)
        | inr other ↦ ground (
          arith,
          count-others-le (admin_of tenant_rid) (is_member user_rid tenant_rid) rows m found,
        )
      ]

module _ (D : Directory) (L : Table.IsLawful D.memberships) (tenant_rid user_rid : String)
    (w : World D) where
  kept_if :
      (m : Membership) (b : Bool)
      → (is_admin m && leb (listed_admins D tenant_rid w) 1) ≡ b
      → find (is_member user_rid tenant_rid) (D.memberships.rows w.memberships) ≡ some m
      → is_ok
          ((raise_if b (app_error common_invalid_input) >> drop_member D tenant_rid user_rid m) w).0
        ≡ true
      → count (is_member user_rid tenant_rid) (D.memberships.rows w.memberships) ≤ 1
      → 0 < count (admin_of tenant_rid) (D.memberships.rows w.memberships)
      → 0
        < count (admin_of tenant_rid) (
            D.memberships.rows
              ((raise_if b (app_error common_invalid_input) >> drop_member D tenant_rid user_rid m)
                w).1.memberships)
  unfolding ◌>>=◌ on_memberships on_policies delete_membership
  kept_if m true refused found done one some_admin = absurd (ground arith)
  kept_if m false allowed found done one some_admin =
      rw (L.count-delete_where (admin_of tenant_rid) (is_member user_rid tenant_rid) w.memberships)
        (admin_left D tenant_rid user_rid (D.memberships.rows w.memberships) m _ found one
          (listed_admins-le D tenant_rid w) allowed some_admin)

  removal_keeps :
      (m : Membership)
      → find (is_member user_rid tenant_rid) (D.memberships.rows w.memberships) ≡ some m
      → is_ok (removal D tenant_rid user_rid m w).0 ≡ true
      → count (is_member user_rid tenant_rid) (D.memberships.rows w.memberships) ≤ 1
      → 0 < count (admin_of tenant_rid) (D.memberships.rows w.memberships)
      → 0
        < count
            (admin_of tenant_rid)
            (D.memberships.rows (removal D tenant_rid user_rid m w).1.memberships)
  unfolding ◌>>=◌ on_memberships on_policies delete_membership
  removal_keeps m found done one some_admin = kept_if m _ refl found done one some_admin

  kept_of :
      (found : Option Membership)
      → find (is_member user_rid tenant_rid) (D.memberships.rows w.memberships) ≡ found
      → is_ok ((require found (app_error common_not_found) >>= removal D tenant_rid user_rid) w).0
        ≡ true
      → count (is_member user_rid tenant_rid) (D.memberships.rows w.memberships) ≤ 1
      → 0 < count (admin_of tenant_rid) (D.memberships.rows w.memberships)
      → 0
        < count (admin_of tenant_rid) (
            D.memberships.rows
              ((require found (app_error common_not_found) >>= removal D tenant_rid user_rid)
                w).1.memberships)
  unfolding ◌>>=◌
  kept_of none found done one some_admin = absurd (ground arith)
  kept_of (some m) found done one some_admin = removal_keeps m found done one some_admin

  -- A tenant that has an administrator still has one after a member was removed, where the user has
  -- at most one membership in the tenant.
  pub remove_member_keeps_admin :
      is_ok (remove_member D tenant_rid user_rid w).0 ≡ true
      → count (is_member user_rid tenant_rid) (D.memberships.rows w.memberships) ≤ 1
      → 0 < count (admin_of tenant_rid) (D.memberships.rows w.memberships)
      → 0
        < count
            (admin_of tenant_rid)
            (D.memberships.rows (remove_member D tenant_rid user_rid w).1.memberships)
  unfolding remove_member membership ◌>>=◌
  remove_member_keeps_admin done one some_admin = kept_of _ refl done one some_admin
