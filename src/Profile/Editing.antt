-- ===== src/Profile/Editing.antt =====
-- What a user gets back after editing the profile.
use cloud_vault.Base.{
  All, Bool, List, [], any, ap, arith, false, if◌then◌else◌, none, not, refl, true, update_where, ℕ,
  ◌&&◌, ◌∙◌, ◌∷◌, ◌≡◌,
}
use cloud_vault.Profile.{
  ProfileUpdate, check_email, has_updates, is_unchanged, is_user, update_row, update_user_profile,
  updated,
}
use cloud_vault.Rows.{User, record_not_found}
use cloud_vault.World.{Env, Result, World, err, ok, pure, tick}
use cloud_vault.World.Runs.{bind_err, bind_ok, sql_up}

-- An update that sends no address
abbrev pub but_email : ProfileUpdate → ProfileUpdate
but_email req = record req { email = none }

any-unchanged :
    (id : ℕ) (req : ProfileUpdate) (us : List User)
    → All (λ u. is_user id u ≡ true → is_unchanged req u ≡ true) us
    → any (λ u. is_user id u && not (is_unchanged req u)) us ≡ false
any-unchanged id req [] h = refl
any-unchanged id req (u ∷ us) h = ground (arith, h.0, any-unchanged id req us h.1)

module _ {S : Type 0} (env : Env S) (db_up : (n : ℕ) → env.db_fails n ≡ false) where
  update_row-unchanged :
      (id : ℕ) (req : ProfileUpdate) (w : World S)
      → All (λ u. is_user id u ≡ true → is_unchanged (but_email req) u ≡ true) w.users
      → update_row env id (but_email req) w ≡ (err record_not_found, tick w)
  unfolding update_row
  update_row-unchanged id req w same =
      sql_up env _ w (db_up w.calls)
      ∙ ap
          (λ (b : Bool).
            let out : Result (Unit {0}) × World S =
              if b
              then (
                ok tt,
                record (tick w) {
                  users = update_where (is_user id) (updated (but_email req)) w.users;
                },
              )
              else (err record_not_found, tick w) in
            out)
          (any-unchanged id (but_email req) w.users same)

  -- While MySQL answers, a profile that is saved without any change and without an address ends in
  -- the error that stands for a user who does not exist.
  pub update_user_profile-unchanged :
      (id : ℕ) (req : ProfileUpdate) (w : World S)
      → has_updates (but_email req) ≡ true
      → All (λ u. is_user id u ≡ true → is_unchanged (but_email req) u ≡ true) w.users
      → (update_user_profile env id (but_email req) w).0 ≡ err record_not_found
  unfolding update_user_profile check_email
  update_user_profile-unchanged id req w sent same =
      ap (λ x. x.0)
        (bind_ok (check_email env id none) _ w tt w refl
          ∙ bind_err _ _ w record_not_found (tick w) (
              ap (λ (b : Bool). (if b then update_row env id (but_email req) else pure tt) w) sent
              ∙ update_row-unchanged id req w same))
