-- ===== src/Accounts.antt =====
-- Accounts: registration, activation and login (internal/handler/register.go, login.go,
-- internal/service/user.go, utils/pwd.go).
--
-- Parameters: `Bcrypt` stands for golang.org/x/crypto/bcrypt, `uuid` for `uuid.NewString` by the
-- number of the call, `sends_mail` says whether `SendActivateMail` succeeds, and `sign` is
-- `GenerateToken` (Session). What is stored in Redis as JSON is stored as a value here.

pub mod Signup
use cloud_vault.Base.{
  Bool, Option, String, [], any, find?, if◌then◌else◌, is_none, none, not, some, str_eq, true, ℕ,
  ◌&&◌, ◌++◌, ◌+◌, ◌==◌, ◌||◌, ◌∷◌,
}
use cloud_vault.Base.Text.{Text}
use cloud_vault.Rows.{Registration, User, cached_user, db_failure, duplicate_key, message}
use cloud_vault.World.{
  Env, M, Result, World, attempt, err, fail, first, gets, is_not_found, ok, or_fail, pure, redis,
  redis_get, redis_try, sql, tick, unfinished, ◌>>=◌, ◌>>◌,
}

pub record Bcrypt : Type 0 where
  -- `GenerateFromPassword`, whose salt goes by the number of the call
  pub generate : ℕ → String → Option String
  -- `CompareHashAndPassword` of a hash and a password: whether it returned nil
  pub compare_hash : String → String → Bool

pub record RegisterRequest : Type 0 where
  pub username : String
  pub first_password : String
  pub last_password : String
  pub email : String

-- A handler's answer: what it sends with status 200, or an error's status and the fixed part of its
-- text.
pub data Answer (A : Type 0) : Type 0 where
  served : A → Answer A
  rejected : ℕ → String → Answer A

abbrev pub is_named : {S : Type 0} → Env S → String → User → Bool
is_named env name u = env.same_text u.user_name name && is_none u.deleted_at

abbrev pub has_email : {S : Type 0} → Env S → String → User → Bool
has_email env email u = env.same_text u.email email && is_none u.deleted_at

-- The unique keys of the table, which deleted rows keep
abbrev pub takes_name_of : {S : Type 0} → Env S → User → User → Bool
takes_name_of env new u = env.same_text u.user_name new.user_name || env.same_text u.email new.email

abbrev pub new_user : Registration → User
new_user r = record {
  id = 0;
  user_name = r.username;
  password = r.password;
  email = r.email;
  nick_name = "";
  avatar_url = "";
  bio = "";
  is_active = true;
  total_space = 0;
  use_space = 0;
  deleted_at = none;
}

abbrev pub put_user_cache : {S : Type 0} → ℕ → User → World S → World S
put_user_cache id u w = record w {
  user_cache = λ k. if k == id then some (cached_user u) else w.user_cache k;
}

abbrev pub put_registration : {S : Type 0} → String → Option Registration → World S → World S
put_registration token r w = record w {
  registrations = λ t. if str_eq t token then r else w.registrations t;
}

abbrev pub mark_used : {S : Type 0} → String → World S → World S
mark_used token w = record w { used_tokens = λ t. if str_eq t token then true else w.used_tokens t }

abbrev pub token_answer : User → Option Text → Answer (Text × User)
token_answer u none = rejected 400 "tokens"
token_answer u (some token) = served (token, u)

module _ {S : Type 0} (env : Env S) where
  -- `IsExist`
  unfoldable pub is_exist : String → M S User
  is_exist name = first env (λ w. find? (is_named env name) w.users)

  -- `IsEmailExist`
  unfoldable pub is_email_exist : String → M S User
  is_email_exist email = first env (λ w. find? (has_email env email) w.users)

  -- `INSERT` into user_db, refused where a unique key is taken
  unfoldable pub insert_user : User → M S User
  insert_user u = sql env λ w.
      if any (takes_name_of env u) w.users then (err duplicate_key, w) else (
        ok (record u { id = w.next_user }),
        record w {
          users = w.users ++ record u { id = w.next_user } ∷ [];
          next_user = w.next_user + 1;
        },
      )

  module _ (bcrypt : Bcrypt) where
    -- `GetPwd`
    unfoldable pub get_pwd : String → M S String
    get_pwd password w =
        or_fail (bcrypt.generate w.calls password) (message "bcrypt failed") (tick w)

    -- `CreateUser`
    unfoldable pub create_user : User → M S User
    unfolding get_pwd insert_user
    create_user u = do
      hashed ← get_pwd u.password
      row ← insert_user (record u { password = hashed })
      redis env (put_user_cache row.id row)
      pure row

    -- `CheckPassword`
    unfoldable pub check_password : String → String → M S (Unit {0})
    unfolding is_exist
    check_password name password = do
      u ← is_exist name
      if bcrypt.compare_hash u.password password then pure tt else fail (message "password error")

    -- What `Register` makes of a lookup: a hit ends it, and so does an error but `not found`.
    unfoldable pub unless_taken :
        {A B : Type 0} → Result A → String → String → M S (Answer B) → M S (Answer B)
    unless_taken (ok row) taken unknown rest = pure (rejected 400 taken)
    unless_taken (err e) taken unknown rest =
        if is_not_found e then rest else pure (rejected 500 unknown)
    unless_taken unfinished taken unknown rest = fail db_failure

    module _ (uuid : ℕ → String) (sends_mail : String → String → Bool) where
      -- The registration waits in Redis for ten minutes; its token is sent by mail.
      unfoldable pub invite : RegisterRequest → M S (Answer (Unit {0}))
      invite req = do
        token ← gets (λ w. uuid w.calls)
        let waiting : Registration = record {
          email = req.email;
          username = req.username;
          password = req.first_password;
        }
        kept ← attempt (redis_try env (put_registration token (some waiting)))
        elim kept [
          | ok _ ↦
              if sends_mail req.email token
              then pure (served tt)
              else pure (rejected 500 "send activation email failed: ")
          | err _ ↦ pure (rejected 500 "cache activation token failed: ")
          | unfinished ↦ fail db_failure
        ]

      -- `Register`, of a request that was read
      unfoldable pub register : RegisterRequest → M S (Answer (Unit {0}))
      unfolding is_exist is_email_exist unless_taken invite
      register req =
          if not (str_eq req.first_password req.last_password)
          then pure (rejected 400 "passwords do not match")
          else (do
            named ← attempt (is_exist req.username)
            unless_taken named "username already exists" "check username failed" (do
              mailed ← attempt (is_email_exist req.email)
              unless_taken mailed "email already exists" "check email failed" (invite req)))

    -- What `Activate` makes of the new row
    unfoldable pub after_activation : String → Result User → M S (Answer String)
    after_activation token (ok row) = do
      redis env (put_registration token none)
      redis env (mark_used token)
      pure (served "account activated")
    after_activation token (err e) = pure (rejected 400 "")
    after_activation token unfinished = fail db_failure

    unfoldable pub activate_with : String → Option Registration → M S (Answer String)
    unfolding create_user after_activation
    activate_with token (some r) = do
      created ← attempt (create_user (new_user r))
      after_activation token created
    activate_with token none = do
      used ← redis_get env (λ w. if w.used_tokens token then some tt else none)
      elim used [
        | some _ ↦ pure (served "account already activated")
        | none ↦ pure (rejected 400 "link invalid or expired")
      ]

    -- `Activate`
    unfoldable pub activate : String → M S (Answer String)
    unfolding activate_with
    activate token =
        if str_eq token ""
        then pure (rejected 400 "token missing")
        else (do waiting ← redis_get env (λ w. w.registrations token); activate_with token waiting)

    module _ (sign : ℕ → ℕ → String → Option Text) where
      -- The end of `Login`: the token of a user whose password was checked
      unfoldable pub give_token : User → Result (Unit {0}) → M S (Answer (Text × User))
      give_token u (ok _) w = (ok (token_answer u (sign w.calls u.id u.user_name)), tick w)
      give_token u (err e) w = (ok (rejected 400 "密码错误"), w)
      give_token u unfinished w = (err db_failure, w)

      unfoldable pub login_as : String → String → Result User → M S (Answer (Text × User))
      unfolding check_password give_token
      login_as name password (ok u) =
          if not u.is_active
          then pure (rejected 403 "账号未激活")
          else (do checked ← attempt (check_password name password); give_token u checked)
      login_as name password (err e) = pure (rejected 400 "该用户不存在")
      login_as name password unfinished = fail db_failure

      -- `Login`
      unfoldable pub login : String → String → M S (Answer (Text × User))
      unfolding is_exist login_as
      login name password = do found ← attempt (is_exist name); login_as name password found
