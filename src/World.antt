-- ===== src/World.antt =====
-- The world that the services act on, and the statements that they send to it.
--
-- `World` holds the tables as lists of rows in the order of their primary keys, the Redis caches of
-- utils/cache.go as maps, the object store as a value of an unknown type `S`, and the activity
-- events handed to `activity.Emit`. MySQL, Redis, MinIO and the generator of tokens are not part of
-- the repository: `Env` takes what they answer as a parameter. Every statement and every Redis
-- command has a number, and the environment says of each number whether it fails; so a theorem over
-- all environments covers a failure at every point. A failed statement changes nothing. A Redis
-- entry that has expired reads as a failed command.
--
-- The services are written in `M`, the monad of state and errors, where the state that was reached
-- is kept after an error, since no service opens a transaction.
pub mod Rules
pub mod Runs
pub mod Ends
use cloud_vault.Base.{Bool, List, Option, String, false, if◌then◌else◌, none, some, true, ℕ, ◌+◌}
use cloud_vault.Base.Int.{ℤ}
use cloud_vault.Rows.{
  DownloadTask, Emitted, Error, FileChunk, FileListCache, FileObject, ListKey, Registration,
  UploadSession, User, UserFavorite, UserFile, UserRecent, db_failure, message, record_not_found,
  store_failure,
}

-- `unfinished` says that the fuel ran out: the Go call has not returned yet.
pub data Result (A : Type 0) : Type 0 where
  ok : A → Result A
  err : Error → Result A
  unfinished : Result A

-- internal/storage/store.go: the operations of `Store`, on the state `S` of the object store. The
-- first part of a result says whether the call succeeded.
pub record Store (S : Type 0) : Type 0 where
  pub put_object : String → String → ℤ → S → Bool × S
  pub get_object : String → String → S → Bool × S
  pub remove_object : String → String → S → Bool × S
  pub compose_object : String → String → List String → S → Bool × S

pub record Env (S : Type 0) : Type 0 where
  pub store : Store S
  -- `storage.Default != nil`
  pub store_ready : Bool
  pub db_fails : ℕ → Bool
  pub redis_fails : ℕ → Bool
  -- `=` between texts in MySQL, which goes by the collation of the column
  pub same_text : String → String → Bool
  -- `utils.GetToken`, by the number of the call
  pub token : ℕ → String
  -- `time.Now`, by the number of the call
  pub clock : ℕ → ℕ
  -- `config.AppConfig.BucketName`
  pub bucket : String

pub record World (S : Type 0) : Type 0 where
  pub calls : ℕ
  pub users : List User
  pub next_user : ℕ
  pub files : List UserFile
  pub next_file : ℕ
  pub objects : List FileObject
  pub next_object : ℕ
  pub sessions : List UploadSession
  pub next_session : ℕ
  pub chunks : List FileChunk
  pub object_cache : ℕ → Option FileObject
  pub hash_cache : String → Option ℕ
  pub path_cache : String → String → Option ℕ
  pub list_cache : ListKey → Option FileListCache
  pub user_cache : ℕ → Option User
  pub tasks : List DownloadTask
  pub next_task : ℕ
  pub favorites : List UserFavorite
  pub recents : List UserRecent
  -- the keys "register:<token>" and "register_used:<token>"
  pub registrations : String → Option Registration
  pub used_tokens : String → Bool
  pub store : S
  pub events : List Emitted

abbrev pub M : Type 0 → Type 0 → Type 0
M S A = World S → Result A × World S

abbrev pub pure : {S A : Type 0} → A → M S A
pure a w = (ok a, w)

abbrev pub fail : {S A : Type 0} → Error → M S A
fail e w = (err e, w)

infixl 5 ◌>>=◌ ◌>>◌
unfoldable pub ◌>>=◌ : {S A B : Type 0} → M S A → (A → M S B) → M S B
◌>>=◌ m f w =
    let (r, w') = m w in
    elim r [ ok a ↦ f a w' | err e ↦ (err e, w') | unfinished ↦ (unfinished, w') ]

abbrev pub ◌>>◌ : {S A B : Type 0} → M S A → M S B → M S B
m >> k = m >>= λ _. k

-- The outcome of a call as a value, for code that looks at its error.
unfoldable pub attempt : {S A : Type 0} → M S A → M S (Result A)
attempt m w =
    let (r, w') = m w in
    elim r [ ok a ↦ (ok (ok a), w') | err e ↦ (ok (err e), w') | unfinished ↦ (unfinished, w') ]

-- A call whose error is dropped.
abbrev pub ignore : {S A : Type 0} → M S A → M S (Unit {0})
ignore m = attempt m >> pure tt

abbrev pub gets : {S A : Type 0} → (World S → A) → M S A
gets f w = (ok (f w), w)

abbrev pub tick : {S : Type 0} → World S → World S
tick w = record w { calls = w.calls + 1 }

-- `errors.Is(err, gorm.ErrRecordNotFound)`
abbrev pub is_not_found : Error → Bool
is_not_found record_not_found = true
is_not_found _ = false

abbrev pub or_fail : {S A : Type 0} → Option A → Error → M S A
or_fail none e = fail e
or_fail (some a) e = pure a

module _ {S : Type 0} (env : Env S) where
  -- One statement to MySQL: it fails and changes nothing, or does what its SQL says.
  unfoldable pub sql : {A : Type 0} → M S A → M S A
  sql q w = if env.db_fails w.calls then (err db_failure, tick w) else q (tick w)

  -- `First(&row)`
  abbrev pub first : {A : Type 0} → (World S → Option A) → M S A
  first row = sql (λ w. or_fail (row w) record_not_found w)

  -- `Find(&rows)` and `Count(&n)`
  abbrev pub query : {A : Type 0} → (World S → A) → M S A
  query rows = sql (gets rows)

  -- One Redis command whose error is dropped.
  unfoldable pub redis : (World S → World S) → M S (Unit {0})
  redis f w = (ok tt, if env.redis_fails w.calls then tick w else f (tick w))

  -- One Redis command whose error is looked at.
  unfoldable pub redis_try : (World S → World S) → M S (Unit {0})
  redis_try f w =
      if env.redis_fails w.calls
      then (err (message "redis failed"), tick w)
      else (ok tt, f (tick w))

  -- A read of the cache: a failure and a miss are not told apart.
  unfoldable pub redis_get : {A : Type 0} → (World S → Option A) → M S (Option A)
  redis_get read w = (ok (if env.redis_fails w.calls then none else read w), tick w)

  -- A call of the object store.
  unfoldable pub stored : (S → Bool × S) → M S (Unit {0})
  stored call w =
      let (done, s) = call w.store in
      (if done then ok tt else err store_failure, record (tick w) { store = s })

  -- `utils.GetToken()`
  abbrev pub new_token : M S String
  new_token w = (ok (env.token w.calls), tick w)

  -- `time.Now()`
  abbrev pub now : M S ℕ
  now w = (ok (env.clock w.calls), tick w)
