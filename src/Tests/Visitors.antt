-- ===== src/Tests/Visitors.antt =====
-- Accounts, sessions, profiles, downloads and chunks at concrete inputs.
use cloud_vault.Accounts.{Bcrypt, RegisterRequest}
use cloud_vault.Archive.Held.{IsCacheRight}
use cloud_vault.Base.{
  Bool-cases, Option, String, [], ap, arith, false, if◌then◌else◌, inl, inr, ltb, none, not_some,
  refl, some, str_eq, subst, true, ℕ, ◌&&◌, ◌<◌, ◌==◌, ◌∙◌, ◌∷◌, ◌≡◌,
}
use cloud_vault.Base.Int.{pos}
use cloud_vault.Base.Text.{Text, codes, split_on, text_eq}
use cloud_vault.Downloads.{DownloadRequest, minio_download_file, minio_download_url}
use cloud_vault.Downloads.Owners.{Ended, IsSentRight, IsSignedRight, downloads-IsServed}
use cloud_vault.Downloads.Served.{IsKeyed}
use cloud_vault.Profile.{ProfileUpdate, is_unchanged, update_user_profile}
use cloud_vault.Profile.Editing.{update_user_profile-unchanged}
use cloud_vault.Requests.{multipart_upload_chunk}
use cloud_vault.Requests.Chunks.{NotStored, SameChunks, has_index, multipart_upload_chunk-refused}
use cloud_vault.Rows.{UploadSession, record_not_found}
use cloud_vault.Session.{
  Claims, Jwt, Method, Parsed, auth_middleware, goes_on, no_token, panicked, token_read,
  verify_token,
}
use cloud_vault.Session.Admission.{IsSound, auth_middleware-signed}
use cloud_vault.Tests.Worlds.{ann, env, world}
use cloud_vault.World.{Env, World, err, now}
use cloud_vault.World.Rules.{Post}

abbrev steady_env : Env ℕ
steady_env = record env { db_fails = λ n. false }

abbrev plain_bcrypt : Bcrypt
plain_bcrypt = record { generate = λ n p. some p; compare_hash = λ h p. str_eq h p }

abbrev plain_sign : ℕ → ℕ → String → Option Text
plain_sign n user name = some (codes name)

abbrev bob : RegisterRequest
bob = record {
  username = "bob";
  first_password = "secret";
  last_password = "secret";
  email = "bob@example.org";
}

-- A library that knows one token, signed by HS256 with one secret.
abbrev ann_claims : Claims
ann_claims = record {
  user_id = 7;
  username = "ann";
  expires_at = some 86500;
  issued_at = 100;
  not_before = 100;
}

abbrev ann_token : Text
ann_token = codes "a.b.c"

abbrev hs256 : Method
hs256 = record { alg = "HS256"; is_hmac = true }

abbrev read_token : Option String → ℕ → Text → Parsed
read_token none time t = no_token
read_token (some k) time t =
    if str_eq k "secret" && text_eq t ann_token && ltb time 86500
    then token_read ann_claims true
    else no_token

abbrev one_jwt : Jwt
one_jwt = record {
  signed_string = λ secret c. if str_eq secret "secret" then some ann_token else none;
  method_in = λ t. some hs256;
  claims_in = λ t. some ann_claims;
  verifies = λ m secret t. str_eq secret "secret" && text_eq t ann_token;
  parse = λ key now t. read_token (key (some hs256)) now t;
}

one_jwt-IsSound : IsSound one_jwt
one_jwt-IsSound = record { sound = sound }
  where
    of_key :
        (o : Option String) (now : ℕ) (t : Text) (c : Claims)
        → read_token o now t ≡ token_read c true
        → (k : String) × (o ≡ some k)
          × (ann_claims ≡ c)
          × ((str_eq k "secret" && text_eq t ann_token) ≡ true)
          × (now < 86500)
    of_key none now t c h = cc
    of_key (some k) now t c h =
        elim (Bool-cases (str_eq k "secret" && text_eq t ann_token && ltb now 86500)) [
          | inr not_it ↦ cc (rw not_it at h)
          | inl it ↦ (k, refl, cc (rw it at h), ground (arith, it), ground (arith, it))
        ]

    before :
        (c : Claims) (now : ℕ)
        → ann_claims ≡ c
        → now < 86500
        → (e : ℕ) → c.expires_at ≡ some e
        → now < e
    before c now same early e h =
        let at_end : ◌≡◌ {A = Option ℕ} (some 86500) (some e) =
          ap (λ (x : Claims). x.expires_at) same ∙ h in
        ground (arith, at_end, early)

    sound :
        (key : Option Method → Option String) (now : ℕ) (t : Text) (c : Claims)
        → one_jwt.parse key now t ≡ token_read c true
        → (m : Method) × (k : String) × (one_jwt.method_in t ≡ some m)
          × (one_jwt.claims_in t ≡ some c)
          × (key (some m) ≡ some k)
          × (one_jwt.verifies m k t ≡ true)
          × ((e : ℕ) → c.expires_at ≡ some e → now < e)
    sound key now t c h =
        let (k, keyed, same, verified, early) = of_key (key (some hs256)) now t c h in
        (hs256, k, refl, ap (λ x. some x) same, keyed, verified, before c now same early)

auth_middleware-signed_example :
    (t : Text) × (m : Method) × (c : Claims) × (split_on 32 (codes "Bearer a.b.c")
      ≡ codes "Bearer" ∷ t ∷ [])
    × (one_jwt.method_in t ≡ some m)
    × (str_eq m.alg "HS256" ≡ true)
    × (m.is_hmac ≡ true)
    × (one_jwt.verifies m "secret" t ≡ true)
    × (one_jwt.claims_in t ≡ some c)
    × (c.user_id ≡ 7)
    × (c.username ≡ "ann")
    × ((e : ℕ) → c.expires_at ≡ some e → 100 < e)
unfolding auth_middleware
auth_middleware-signed_example =
    auth_middleware-signed one_jwt "secret" 100 (codes "Bearer a.b.c") 7 "ann" one_jwt-IsSound goes
  where
    goes : auth_middleware one_jwt "secret" 100 (codes "Bearer a.b.c") ≡ goes_on 7 "ann"
    goes = refl

-- A header whose token has no three parts, where the library returns no token, ends in a panic.
abbrev no_jwt : Jwt
no_jwt = record {
  signed_string = λ secret c. none;
  method_in = λ t. none;
  claims_in = λ t. none;
  verifies = λ m k t. false;
  parse = λ key now t. no_token;
}

bare_header_panics : auth_middleware no_jwt "secret" 0 (codes "Bearer x") ≡ panicked
unfolding auth_middleware verify_token
bare_header_panics = refl

abbrev same_bio : ProfileUpdate
same_bio = record { nick_name = none; email = none; avatar_url = none; bio = some "" }

update_user_profile-unchanged_example :
    (update_user_profile steady_env 7 same_bio (record world { users = ann ∷ [] })).0
    ≡ err record_not_found
unfolding is_unchanged
update_user_profile-unchanged_example =
    update_user_profile-unchanged steady_env (λ n. refl) 7 same_bio
      (record world { users = ann ∷ [] }) refl ((λ e. refl), tt)

world-IsKeyed : IsKeyed world.files
world-IsKeyed f g mine other_one same = ground (
  arith,
  mine (λ h. h.user_id == f.user_id) (ground arith),
  other_one (λ h. h.user_id == g.user_id) (ground arith),
)

-- User 7 asks for a file by its hash.
abbrev by_hash : DownloadRequest
by_hash = record { file_id = 0; file_hash = "abc" }

world-IsCacheRight : IsCacheRight world
world-IsCacheRight k o e = absurd (not_some o e)

downloads-IsServed_example :
    Post
      (IsSentRight steady_env world world-IsKeyed world-IsCacheRight 7 by_hash)
      (Ended steady_env world world-IsKeyed world-IsCacheRight 7 by_hash)
      (minio_download_file steady_env (λ n. some (pos 10)) (λ s. s) 7 by_hash world)
    × Post
        (IsSignedRight steady_env world world-IsKeyed world-IsCacheRight 7 by_hash
          (λ b o. some "url"))
        (Ended steady_env world world-IsKeyed world-IsCacheRight 7 by_hash)
        (minio_download_url steady_env (λ b o. some "url") (λ s. s) 7 by_hash world)
downloads-IsServed_example =
    downloads-IsServed steady_env world world-IsKeyed world-IsCacheRight 7 by_hash
      (λ n. some (pos 10)) (λ b o. some "url") (λ s. s)

abbrev ann_upload : UploadSession
ann_upload = record {
  id = 1;
  upload_id = "u1";
  user_id = 7;
  file_hash = "def";
  file_name = "film.mp4";
  file_size = pos 20;
  chunk_size = pos 10;
  total_chunks = pos 2;
  status = 0;
}

abbrev uploading : World ℕ
uploading = record world { sessions = ann_upload ∷ [] }

-- A third chunk of two
multipart_upload_chunk-refused_example :
    Post (NotStored steady_env uploading) (SameChunks steady_env uploading) (
      multipart_upload_chunk steady_env
        (λ u i. "chunks/u1/2")
        7
        (record { chunk_index = some (pos 2); upload_id = "u1"; size = some (pos 10) })
        uploading)
unfolding has_index
multipart_upload_chunk-refused_example =
    multipart_upload_chunk-refused steady_env uploading (λ u i. "chunks/u1/2") 7 (pos 2) "u1"
      (some (pos 10)) outside
  where
    outside :
        (s : UploadSession)
        → some ann_upload ≡ some s
        → (s.user_id == 7 && has_index s (pos 2)) ≡ false
    outside s e =
        let same : ann_upload ≡ s = cc e in
        subst (λ x. (x.user_id == 7 && has_index x (pos 2)) ≡ false) same refl
