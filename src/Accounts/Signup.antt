-- ===== src/Accounts/Signup.antt =====
-- Whoever registers can log in.
use cloud_vault.Accounts.{Bcrypt, RegisterRequest, new_user, put_user_cache}
use cloud_vault.Base.{Bool, Option, String, [], false, some, true, ℕ, ◌++◌, ◌+◌, ◌∷◌, ◌≡◌, ◌≤◌}
use cloud_vault.Base.Text.{Text, byte_length}
use cloud_vault.Rows.{Registration, User}
use cloud_vault.World.{Env, World, tick}

-- Nothing fails, and bcrypt hashes what has at most 72 bytes, as it documents, and recognises it.
pub record Works {S : Type 0} (env : Env S) (bcrypt : Bcrypt) (sign : ℕ → ℕ → String → Option Text)
    : Type 0 where
  pub db_up : (n : ℕ) → env.db_fails n ≡ false
  pub redis_up : (n : ℕ) → env.redis_fails n ≡ false
  pub same : (s : String) → env.same_text s s ≡ true
  pub hash :
      (n : ℕ) (p : String)
      → byte_length p ≤ 72
      → (h : String) × (bcrypt.generate n p ≡ some h) × (bcrypt.compare_hash h p ≡ true)
  pub token : (n user : ℕ) (name : String) → (t : Text) × (sign n user name ≡ some t)

-- The row of a new account, and the world with it
abbrev account : {S : Type 0} → Registration → String → World S → User
account r h w = record (new_user r) { password = h; id = w.next_user }

abbrev with_account : {S : Type 0} → User → World S → World S
with_account u w = record w { users = w.users ++ u ∷ []; next_user = w.next_user + 1 }

module _ {S : Type 0} (env : Env S) (bcrypt : Bcrypt) (sign : ℕ → ℕ → String → Option Text)
    (works : Works env bcrypt sign) where
  -- The world that `activate` leaves, before the marks of the token
  abbrev activated : Registration → String → World S → World S
  activated r h w =
      put_user_cache w.next_user (account r h w)
        (tick (with_account (account r h w) (tick (tick w))))

  module _ (uuid : ℕ → String) (sends_mail : String → String → Bool) where
    abbrev waiting_for : RegisterRequest → Registration
    waiting_for req = record {
      email = req.email;
      username = req.username;
      password = req.first_password;
    }
