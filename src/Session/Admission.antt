-- ===== src/Session/Admission.antt =====
-- Who passes the guard of the handlers.
use cloud_vault.Base.{
  Bool, Bool-cases, List, Option, String, [], arith, false, if◌then◌else◌, inl, inr, none, refl,
  some, str_eq, subst, true, ℕ, ◌<◌, ◌∷◌, ◌≡◌,
}
use cloud_vault.Base.Text.{Text, codes, split_on, text_eq, text_eq→≡}
use cloud_vault.Session.{
  Claims, Guarded, Jwt, Method, Parsed, auth_middleware, bearer_token, goes_on, guarded, key_for,
  no_token, token_read, unauthorized, verdict, verify_token,
}
use cloud_vault.World.{now}

-- What the package documents: `Valid` is set only if the callback had a key for the method of the
-- header, the signature is verified with it by this method, and the claims, which are those of the
-- payload, do not lie outside their time, where they have one.
pub record IsSound (jwt : Jwt) : Type 0 where
  pub sound :
      (key : Option Method → Option String) (now : ℕ) (t : Text) (c : Claims)
      → jwt.parse key now t ≡ token_read c true
      → (m : Method) × (k : String) × (jwt.method_in t ≡ some m)
        × (jwt.claims_in t ≡ some c)
        × (key (some m) ≡ some k)
        × (jwt.verifies m k t ≡ true)
        × ((e : ℕ) → c.expires_at ≡ some e → now < e)

key_for-hs256 :
    (secret k : String) (m : Method)
    → key_for secret (some m) ≡ some k
    → (str_eq m.alg "HS256" ≡ true) × (m.is_hmac ≡ true) × (k ≡ secret)
unfolding key_for
key_for-hs256 secret k m h = ground arith

guarded-goes_on :
    (p : Parsed) (user : ℕ) (name : String)
    → guarded (verdict p) ≡ goes_on user name
    → (c : Claims) × (p ≡ token_read c true) × (c.user_id ≡ user) × (c.username ≡ name)
guarded-goes_on no_token user name h = cc
guarded-goes_on (token_read c true) user name h = (c, refl, cc, cc)
guarded-goes_on (token_read c false) user name h = cc

bearer_token-some :
    (parts : List Text) (t : Text) → bearer_token parts ≡ some t → parts ≡ codes "Bearer" ∷ t ∷ []
bearer_token-some [] t h = cc
bearer_token-some (a ∷ []) t h = cc
bearer_token-some (a ∷ b ∷ []) t h = elim (Bool-cases (text_eq a (codes "Bearer"))) [
  | inl bearer ↦
      let same : b ≡ t = cc (rw bearer at h) in rw (text_eq→≡ a (codes "Bearer") bearer, same) refl
  | inr scheme ↦ cc (rw scheme at h)
]
bearer_token-some (a ∷ b ∷ c ∷ r) t h = cc

token-goes_on :
    (jwt : Jwt) (secret : String) (now : ℕ) (o : Option Text) (user : ℕ) (name : String)
    → (elim o [ none ↦ unauthorized | some t ↦ guarded (verify_token jwt secret now t) ])
      ≡ goes_on user name
    → (t : Text) × (o ≡ some t) × (guarded (verify_token jwt secret now t) ≡ goes_on user name)
token-goes_on jwt secret now none user name h = cc
token-goes_on jwt secret now (some t) user name h = (t, refl, h)

header-goes_on :
    (empty : Bool) (rest : Guarded) (user : ℕ) (name : String)
    → (if empty then unauthorized else rest) ≡ goes_on user name
    → rest ≡ goes_on user name
header-goes_on true rest user name h = cc
header-goes_on false rest user name h = h

-- If the token library verifies signatures and times as it documents, a request that passes the guard
-- carries, after the word Bearer, a token of the method HS256 and no other, whose signature is
-- verified with the secret, whose claims name the user that the handlers then see, and which has not
-- expired, if it has a time at which it does.
pub auth_middleware-signed :
    (jwt : Jwt) (secret : String) (now : ℕ) (header : Text) (user : ℕ) (name : String)
    → IsSound jwt
    → auth_middleware jwt secret now header ≡ goes_on user name
    → (t : Text) × (m : Method) × (c : Claims) × (split_on 32 header ≡ codes "Bearer" ∷ t ∷ [])
      × (jwt.method_in t ≡ some m)
      × (str_eq m.alg "HS256" ≡ true)
      × (m.is_hmac ≡ true)
      × (jwt.verifies m secret t ≡ true)
      × (jwt.claims_in t ≡ some c)
      × (c.user_id ≡ user)
      × (c.username ≡ name)
      × ((e : ℕ) → c.expires_at ≡ some e → now < e)
unfolding auth_middleware verify_token
auth_middleware-signed jwt secret now header user name s h =
    let (t, split, passed) =
      token-goes_on jwt secret now (bearer_token (split_on 32 header)) user name
        (header-goes_on (text_eq header []) _ user name h) in
    let (c, read, id, named) =
      guarded-goes_on (jwt.parse (key_for secret) now t) user name passed in
    let (m, k, method, payload, keyed, verified, timely) = s.sound (key_for secret) now t c read in
    let (hs256, hmac, same) = key_for-hs256 secret k m keyed in
    (
      t,
      m,
      c,
      bearer_token-some _ t split,
      method,
      hs256,
      hmac,
      subst (λ x. jwt.verifies m x t ≡ true) same verified,
      payload,
      id,
      named,
      timely,
    )
