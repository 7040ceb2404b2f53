-- ===== src/Profile.antt =====
-- The profile of a user: internal/service/user_profile.go.
pub mod Editing
use cloud_vault.Accounts.{put_user_cache}
use cloud_vault.Base.{
  Bool, Option, String, any, false, find?, if◌then◌else◌, is_none, none, not, some, str_eq,
  update_where, ℕ, ◌&&◌, ◌==◌,
}
use cloud_vault.Base.Text.{trim_space_string}
use cloud_vault.Rows.{User, duplicate_key, message, record_not_found}
use cloud_vault.World.{
  Env, M, World, err, fail, first, ok, pure, query, redis, redis_get, sql, ◌>>=◌, ◌>>◌,
}

pub record UserProfile : Type 0 where
  pub id : ℕ
  pub user_name : String
  pub nick_name : String
  pub email : String
  pub avatar_url : String
  pub bio : String
  pub is_active : Bool
  pub total_space : ℕ
  pub use_space : ℕ

-- `UpdateUserProfileRequest`: `none` is a field that is not sent.
pub record ProfileUpdate : Type 0 where
  pub nick_name : Option String
  pub email : Option String
  pub avatar_url : Option String
  pub bio : Option String

-- `toUserProfile` of a user that is there
unfoldable pub to_user_profile : User → UserProfile
to_user_profile u = record {
  id = u.id;
  user_name = u.user_name;
  nick_name = u.nick_name;
  email = u.email;
  avatar_url = u.avatar_url;
  bio = u.bio;
  is_active = u.is_active;
  total_space = u.total_space;
  use_space = u.use_space;
}

-- One entry of the map `updates`: a text without the blanks around it
abbrev pub set_text : Option String → String → String
set_text none old = old
set_text (some s) old = trim_space_string s

abbrev pub updated : ProfileUpdate → User → User
updated req u = record u {
  nick_name = set_text req.nick_name u.nick_name;
  email = set_text req.email u.email;
  avatar_url = set_text req.avatar_url u.avatar_url;
  bio = set_text req.bio u.bio;
}

-- `len(updates) > 0`
abbrev pub has_updates : ProfileUpdate → Bool
has_updates req =
    not (is_none req.nick_name && is_none req.email && is_none req.avatar_url && is_none req.bio)

-- Whether an update leaves a row as it is; MySQL does not count such a row as affected.
unfoldable pub is_unchanged : ProfileUpdate → User → Bool
is_unchanged req u =
    str_eq (set_text req.nick_name u.nick_name) u.nick_name
    && str_eq (set_text req.email u.email) u.email
    && str_eq (set_text req.avatar_url u.avatar_url) u.avatar_url
    && str_eq (set_text req.bio u.bio) u.bio

abbrev pub is_user : ℕ → User → Bool
is_user id u = u.id == id && is_none u.deleted_at

abbrev pub drop_user_cache : {S : Type 0} → ℕ → World S → World S
drop_user_cache id w = record w { user_cache = λ k. if k == id then none else w.user_cache k }

module _ {S : Type 0} (env : Env S) where
  -- `GetUserProfileByID`
  unfoldable pub get_user_profile_by_id : ℕ → M S UserProfile
  unfolding to_user_profile
  get_user_profile_by_id id = do
    cached ← redis_get env (λ w. w.user_cache id)
    elim cached [
      | some u ↦ pure (to_user_profile u)
      | none ↦ (do
        u ← first env (λ w. find? (is_user id) w.users)
        redis env (put_user_cache u.id u)
        pure (to_user_profile u))
    ]

  -- The count of the other users with the new address
  unfoldable pub check_email : ℕ → Option String → M S (Unit {0})
  check_email id none = pure tt
  check_email id (some raw) =
      if str_eq (trim_space_string raw) "" then fail (message "email cannot be empty") else (do
        taken ← query env (λ w.
            any
              (λ u.
                env.same_text u.email (trim_space_string raw)
                && not (u.id == id)
                && is_none u.deleted_at)
              w.users)
        if taken then fail (message "email already exists") else pure tt)

  -- Whether another row, deleted ones included, holds the key that the update would write
  abbrev pub email_clashes : ℕ → Option String → World S → Bool
  email_clashes id none w = false
  email_clashes id (some raw) w =
      any (λ u. not (u.id == id) && env.same_text u.email (trim_space_string raw)) w.users

  -- `Updates`, and the error if no row was affected
  unfoldable pub update_row : ℕ → ProfileUpdate → M S (Unit {0})
  unfolding is_unchanged
  update_row id req = sql env λ w.
      if email_clashes id req.email w
      then (err duplicate_key, w)
      else (if any (λ u. is_user id u && not (is_unchanged req u)) w.users
          then (ok tt, record w { users = update_where (is_user id) (updated req) w.users })
          else (err record_not_found, w))

  -- `UpdateUserProfile`
  unfoldable pub update_user_profile : ℕ → ProfileUpdate → M S UserProfile
  unfolding check_email update_row get_user_profile_by_id
  update_user_profile id req = do
    check_email id req.email
    if has_updates req then update_row id req else pure tt
    redis env (drop_user_cache id)
    get_user_profile_by_id id
