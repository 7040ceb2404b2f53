-- ===== src/Session.antt =====
-- Sessions: utils/jwt.go and the guard of the handlers, utils/middle.go.
--
-- `Jwt` stands for github.com/golang-jwt/jwt/v4: `signed_string` signs claims by HS256 under a
-- secret, `method_in` and `claims_in` read the header and the payload of a token, `verifies` says
-- whether the signature in a token is one of its text by a method under a key, and `parse` is
-- `ParseWithClaims` at a time, which asks its callback for the key. Times are in seconds.
pub mod Admission
use cloud_vault.Base.{
  Bool, List, Option, String, [], false, if◌then◌else◌, none, not, some, str_eq, true, ℕ, ◌+◌, ◌∷◌,
}
use cloud_vault.Base.Text.{Text, codes, split_on, text_eq}
use cloud_vault.World.{now}

pub record Claims : Type 0 where
  pub user_id : ℕ
  pub username : String
  -- `none` if the token has no such claim
  pub expires_at : Option ℕ
  pub issued_at : ℕ
  pub not_before : ℕ

-- `token.Method`: its name, and whether it is a `SigningMethodHMAC`
pub record Method : Type 0 where
  pub alg : String
  pub is_hmac : Bool

-- What `ParseWithClaims` returns: no token but an error; or a token, with `Valid`.
pub data Parsed : Type 0 where
  no_token : Parsed
  token_read : Claims → Bool → Parsed

pub record Jwt : Type 0 where
  pub signed_string : String → Claims → Option Text
  pub method_in : Text → Option Method
  pub claims_in : Text → Option Claims
  pub verifies : Method → String → Text → Bool
  pub parse : (Option Method → Option String) → ℕ → Text → Parsed

-- The callback of `VerifyToken`: the secret, for HS256 alone
unfoldable pub key_for : String → Option Method → Option String
key_for secret none = none
key_for secret (some method) =
    if not (str_eq method.alg "HS256") then none else (if method.is_hmac then some secret else none)

-- `GenerateToken`: valid for 24 hours
unfoldable pub generate_token : Jwt → String → ℕ → ℕ → String → Option Text
generate_token jwt secret now user name = jwt.signed_string secret (record {
  user_id = user;
  username = name;
  expires_at = some (now + 86400);
  issued_at = now;
  not_before = now;
})

-- The claims, the error "invalid token", or a nil pointer that is dereferenced: an error of the
-- parser is logged and does not end the function.
pub data Verified : Type 0 where
  claims_of : Claims → Verified
  invalid_token : Verified
  nil_pointer : Verified

abbrev pub verdict : Parsed → Verified
verdict no_token = nil_pointer
verdict (token_read c true) = claims_of c
verdict (token_read c false) = invalid_token

-- `VerifyToken`
unfoldable pub verify_token : Jwt → String → ℕ → Text → Verified
unfolding key_for
verify_token jwt secret now token = verdict (jwt.parse (key_for secret) now token)

-- What the guard does with a request: the user of the context, 401, or a panic.
pub data Guarded : Type 0 where
  goes_on : ℕ → String → Guarded
  unauthorized : Guarded
  panicked : Guarded

abbrev pub guarded : Verified → Guarded
guarded (claims_of c) = goes_on c.user_id c.username
guarded invalid_token = unauthorized
guarded nil_pointer = panicked

abbrev pub bearer_token : List Text → Option Text
bearer_token (scheme ∷ token ∷ []) = if text_eq scheme (codes "Bearer") then some token else none
bearer_token _ = none

-- `AuthMiddleware`
unfoldable pub auth_middleware : Jwt → String → ℕ → Text → Guarded
unfolding verify_token
auth_middleware jwt secret now header =
    if text_eq header [] then unauthorized else elim (bearer_token (split_on 32 header)) [
      | none ↦ unauthorized
      | some token ↦ guarded (verify_token jwt secret now token)
    ]
