-- ===== src/Transfer.antt =====
-- Files that reach the object store through the server: internal/service/minio.go, `MinioUploadFile`,
-- `DownloadByHTTP`, `UploadFromURL` and the downloads.
--
-- The texts that `path.Base` and `BuildObjectName` make are parameters, and so is the HTTP client:
-- `fetch` follows redirects, each of which it hands to the check, and answers with a response or
-- fails.
pub mod Counts
pub mod Sourced
pub mod Limit
use cloud_vault.Base.{
  Bool, Option, String, false, find?, if◌then◌else◌, inl, inr, is_none, none, not, some, str_eq,
  true, update_where, ℕ, ◌&&◌, ◌==◌,
}
use cloud_vault.Base.Int.{ltb_ℤ, pos, ℤ}
use cloud_vault.Base.Text.{Text}
use cloud_vault.File.Table.{create_user_file_entry}
use cloud_vault.Object.{
  create_files_object, decrease_ref_count, delete_object_row, increase_ref_count,
  is_file_object_available,
}
use cloud_vault.Rows.{FileObject, UserFile, cached_user, db_failure, http_status, message}
use cloud_vault.Source.{
  Net, Refusal, SourceConfig, Url, host_not_allowed, host_not_resolvable, invalid_url,
  ip_not_allowed, missing_host, unsupported_scheme, validate_download_url,
}
use cloud_vault.World.{
  Env, M, Result, attempt, err, fail, first, ignore, is_not_found, new_token, ok, or_fail, pure,
  redis, redis_get, sql, stored, unfinished, ◌>>=◌, ◌>>◌,
}

-- http.Response, as far as `DownloadByHTTP` reads it
pub record Response : Type 0 where
  pub status_code : ℕ
  pub content_length : ℤ

pub record SentFile : Type 0 where
  pub user_id : ℕ
  pub bucket_name : String
  pub object_name : String
  pub size : ℤ
  pub file_path : String
  pub hash : String

-- The object for a new file, and whether it was created for it.
pub record Stored : Type 0 where
  pub object_id : ℕ
  pub created_new : Bool

-- The texts of the errors of `validateDownloadURL`
abbrev pub refusal_text : Refusal → String
refusal_text invalid_url = "invalid url"
refusal_text unsupported_scheme = "unsupported scheme"
refusal_text missing_host = "missing host"
refusal_text host_not_allowed = "host not allowed"
refusal_text ip_not_allowed = "ip not allowed"
refusal_text host_not_resolvable = "host not resolvable"

abbrev pub file_row : ℕ → Option ℕ → String → ℕ → ℤ → UserFile
file_row user parent name object size = record {
  id = 0;
  user_id = user;
  parent_id = parent;
  name = name;
  is_dir = false;
  object_id = some object;
  size = size;
  is_deleted = false;
  deleted_at = none;
}

abbrev pub new_object : ℕ → String → String → String → ℤ → FileObject
new_object user hash bucket object size = record {
  id = 0;
  user_id = user;
  hash = hash;
  bucket_name = bucket;
  object_name = object;
  size = size;
  ref_count = 1;
}

module _ {S : Type 0} (env : Env S) where
  -- `FindUserNameById` (internal/service/user.go), with its cache
  unfoldable pub find_user_name_by_id : ℕ → M S String
  find_user_name_by_id user = do
    cached ← redis_get env (λ w. w.user_cache user)
    elim cached [
      | some u ↦ pure u.user_name
      | none ↦ (do
        u ← first env (λ w. find? (λ u. u.id == user && is_none u.deleted_at) w.users)
        redis env λ w. record w {
          user_cache = λ k. if k == user then some (cached_user u) else w.user_cache k;
        }
        pure u.user_name)
    ]

  -- A blob is written, if there is an object store.
  unfoldable pub write_blob : String → String → ℤ → M S (Unit {0})
  write_blob bucket object size =
      if env.store_ready
      then stored env (env.store.put_object bucket object size)
      else fail (message "storage not initialized")

  -- A blob is removed, if there is an object store; an error is dropped.
  unfoldable pub discard_blob : String → String → M S (Unit {0})
  discard_blob bucket object =
      if env.store_ready
      then ignore (stored env (env.store.remove_object bucket object))
      else pure tt

  abbrev pub with_blob : SentFile → FileObject → FileObject
  with_blob u o = record o {
    bucket_name = u.bucket_name;
    object_name = u.object_name;
    size = u.size;
  }

  -- The blob of a known object is written again where it is gone.
  unfoldable pub restore_blob : SentFile → FileObject → M S (Unit {0})
  unfolding write_blob
  restore_blob u obj = do
    write_blob u.bucket_name u.object_name u.size
    sql env λ w.
        (ok tt, record w { objects = update_where (λ o. o.id == obj.id) (with_blob u) w.objects })

  -- A new object: its blob, then its row
  unfoldable pub store_object : SentFile → M S Stored
  unfolding write_blob create_files_object
  store_object u = do
    write_blob u.bucket_name u.object_name u.size
    row ← create_files_object env (new_object u.user_id u.hash u.bucket_name u.object_name u.size)
    pure (record { object_id = row.id; created_new = true })

  unfoldable pub take_object : SentFile → Result FileObject → M S Stored
  unfolding is_file_object_available restore_blob increase_ref_count store_object
  take_object u (ok obj) = do
    available ← is_file_object_available env obj
    if available then pure tt else restore_blob u obj
    increase_ref_count env obj.id
    pure (record { object_id = obj.id; created_new = false })
  take_object u (err e) = if is_not_found e then store_object u else fail e
  take_object u unfinished = fail db_failure

  -- What follows the creation of the user file: the way back, if it failed
  unfoldable pub keep_object : SentFile → Stored → Result ℕ → M S (Unit {0})
  unfolding discard_blob decrease_ref_count
  keep_object u placed (ok id) = pure tt
  keep_object u placed (err e) = do
    if placed.created_new
        then (do
          discard_blob u.bucket_name u.object_name
          ignore (delete_object_row env placed.object_id))
        else ignore (decrease_ref_count env placed.object_id)
    fail e
  keep_object u placed unfinished = fail db_failure

  -- `MinioUploadFile`
  unfoldable pub minio_upload_file : (String → String) → SentFile → M S (Unit {0})
  unfolding take_object create_user_file_entry keep_object
  minio_upload_file path_base u = do
    found ← attempt (
        first env (λ w.
          find?
            (λ o.
              env.same_text o.bucket_name u.bucket_name
              && env.same_text o.object_name u.object_name)
            w.objects))
    placed ← take_object u found
    created ← attempt (
        create_user_file_entry env
          (file_row u.user_id none (path_base u.file_path) placed.object_id u.size))
    keep_object u placed created

  -- `MinioDownloadObject`
  unfoldable pub minio_download_object : String → M S (Unit {0})
  minio_download_object object =
      if str_eq object ""
      then fail (message "object name missing")
      else (if env.store_ready
          then stored env (env.store.get_object env.bucket object)
          else fail (message "storage not initialized"))

  module _ (net : Net) (config : SourceConfig) (max_bytes : ℤ)
      (fetch : (Text → Bool) → Url → Option Response)
      (build_object_name : String → String → String) where
    -- Whether the check accepts a redirect's target
    unfoldable pub check_redirect : Text → Bool
    unfolding validate_download_url
    check_redirect target = elim (validate_download_url net config target) [
      | inl _ ↦ false
      | inr _ ↦ true
    ]

    -- The tests of the response, in their order
    unfoldable pub check_response : Response → M S ℤ
    check_response r =
        if not (r.status_code == 200)
        then fail (http_status r.status_code)
        else (if ltb_ℤ r.content_length (pos 0)
            then fail (message "unknown content length")
            else (if ltb_ℤ (pos 0) max_bytes && ltb_ℤ max_bytes r.content_length
                then fail (message "content too large")
                else pure r.content_length))

    -- `validateDownloadURL` as a call
    unfoldable pub checked_source : Text → M S Url
    unfolding validate_download_url
    checked_source raw = elim (validate_download_url net config raw) [
      | inl why ↦ fail (message (refusal_text why))
      | inr u ↦ pure u
    ]

    -- `DownloadByHTTP`
    unfoldable pub download_by_http : Text → String → ℕ → M S ℤ
    unfolding checked_source check_response check_redirect find_user_name_by_id write_blob
    download_by_http raw name user = do
      u ← checked_source raw
      r ← or_fail (fetch check_redirect u) (message "request failed")
      size ← check_response r
      user_name ← find_user_name_by_id user
      write_blob env.bucket (build_object_name user_name name) size
      pure size

    -- What follows a record or a user file that could not be created: the blob goes, and the row.
    unfoldable pub after_object : String → Result FileObject → M S FileObject
    unfolding discard_blob
    after_object object (ok row) = pure row
    after_object object (err e) = discard_blob env.bucket object >> fail e
    after_object object unfinished = fail db_failure

    unfoldable pub after_file : String → ℕ → Result ℕ → M S ℕ
    unfolding discard_blob
    after_file object row (ok id) = pure id
    after_file object row (err e) = do
      discard_blob env.bucket object
      ignore (delete_object_row env row)
      fail e
    after_file object row unfinished = fail db_failure

    -- `UploadFromURL`: the id of the user file
    unfoldable pub upload_from_url : ℕ → Text → String → Option ℕ → M S ℕ
    unfolding checked_source download_by_http find_user_name_by_id create_files_object after_object
        create_user_file_entry after_file
    upload_from_url user raw file_name parent = do
      checked_source raw
      hash ← new_token env
      size ← download_by_http raw hash user
      user_name ← find_user_name_by_id user
      let object = build_object_name user_name hash
      recorded ← attempt (create_files_object env (new_object user hash env.bucket object size))
      row ← after_object object recorded
      created ← attempt (create_user_file_entry env (file_row user parent file_name row.id size))
      after_file object row.id created
