-- ===== src/Multipart/Complete.antt =====
-- The end of a multipart upload (internal/service/file_object.go, `CompleteFile`): the chunks are
-- composed to an object, which is counted for the new user file, and are then deleted.
use cloud_vault.Base.{
  Bool, List, String, [], false, filter, find?, if◌then◌else◌, is_none, length, map, none, not,
  some, str_eq, true, update_where, ℕ, ◌&&◌, ◌==◌, ◌∷◌,
}
use cloud_vault.Base.Int.{eq_ℤ, leb_ℤ, pos, ℤ}
use cloud_vault.File.Table.{create_user_file_entry}
use cloud_vault.Multipart.{stored_chunks}
use cloud_vault.Object.{
  cache_file_object, create_files_object, decrease_ref_count, delete_object_row, drop_path_cache,
  get_file_object_by_hash, increase_ref_count, is_file_object_available, latest_session,
}
use cloud_vault.Rows.{FileChunk, FileObject, UploadSession, UserFile, db_failure, message}
use cloud_vault.Upload.{parent_pointer}
use cloud_vault.World.{
  Env, M, Result, attempt, err, fail, first, ignore, is_not_found, ok, pure, query, redis, sql,
  stored, unfinished, ◌>>=◌, ◌>>◌,
}

-- dto.MultipartCompleteRequest, as far as `CompleteFile` reads it
pub record MultipartComplete : Type 0 where
  pub file_hash : String
  pub file_name : String
  pub file_size : ℤ
  pub total_chunks : ℤ
  pub parent_id : ℕ

-- The object for the new file: one that was made now, or one whose count was raised.
pub record Placed : Type 0 where
  pub object_id : ℕ
  pub dst_object : String
  pub created_new_object : Bool

abbrev pub complete_row : ℕ → MultipartComplete → ℕ → UserFile
complete_row user req object = record {
  id = 0;
  user_id = user;
  parent_id = parent_pointer req.parent_id;
  name = req.file_name;
  is_dir = false;
  object_id = some object;
  size = req.file_size;
  is_deleted = false;
  deleted_at = none;
}

-- `build_object_name` stands for the text that `BuildObjectName` makes with `fmt.Sprintf`.
module _ {S : Type 0} (env : Env S) (build_object_name : String → String → String) where
  -- `FindIdByUsername` (internal/service/user.go)
  unfoldable pub find_id_by_username : String → M S ℕ
  find_id_by_username name = do
    user ←
        first env (λ w. find? (λ u. env.same_text u.user_name name && is_none u.deleted_at) w.users)
    pure user.id

  -- Insertion by the chunk's index: `Order("chunk_index asc")`.
  abbrev pub insert_chunk : FileChunk → List FileChunk → List FileChunk
  insert_chunk c [] = c ∷ []
  insert_chunk c (d ∷ ds) =
      if leb_ℤ c.chunk_index d.chunk_index then c ∷ d ∷ ds else d ∷ insert_chunk c ds

  abbrev pub sort_chunks : List FileChunk → List FileChunk
  sort_chunks [] = []
  sort_chunks (c ∷ cs) = insert_chunk c (sort_chunks cs)

  -- `FindAllChunkFile`
  unfoldable pub find_all_chunk_file : ℕ → String → M S (List FileChunk)
  find_all_chunk_file user hash = do
    session ← first env (latest_session env user hash)
    query env (λ w. sort_chunks (stored_chunks env session.upload_id w))

  -- `writeObject`
  unfoldable pub write_object : MultipartComplete → List FileChunk → String → M S (Unit {0})
  write_object req chunks name =
      if eq_ℤ req.total_chunks (pos 0)
      then (if not (eq_ℤ req.file_size (pos 0))
          then fail (message "invalid total_chunks")
          else stored env (env.store.put_object env.bucket name (pos 0)))
      else stored env (env.store.compose_object env.bucket name (map (λ c. c.chunk_path) chunks))

  abbrev pub with_place : MultipartComplete → FileObject → FileObject
  with_place req o = record o { bucket_name = env.bucket; size = req.file_size }

  -- A known object whose blob is gone is written again in its place.
  unfoldable pub rewrite_object : MultipartComplete → List FileChunk → FileObject → M S (Unit {0})
  unfolding write_object cache_file_object
  rewrite_object req chunks obj = do
    write_object req chunks obj.object_name
    sql env λ w. (
      ok tt,
      record w { objects = update_where (λ o. o.id == obj.id) (with_place req) w.objects },
    )
    if str_eq obj.bucket_name env.bucket
        then pure tt
        else redis env (drop_path_cache obj.bucket_name obj.object_name)
    cache_file_object env (with_place req obj)

  -- An object that is not known is written and recorded; the blob goes if the record fails.
  unfoldable pub after_record : String → Result FileObject → M S Placed
  after_record dst (ok row) =
      pure (record { object_id = row.id; dst_object = dst; created_new_object = true })
  after_record dst (err e) = ignore (stored env (env.store.remove_object env.bucket dst)) >> fail e
  after_record dst unfinished = fail db_failure

  unfoldable pub record_object : MultipartComplete → List FileChunk → ℕ → String → M S Placed
  unfolding write_object create_files_object after_record
  record_object req chunks user user_name = do
    let dst = build_object_name user_name req.file_hash
    write_object req chunks dst
    recorded ← attempt (
        create_files_object env (record {
          id = 0;
          user_id = user;
          hash = req.file_hash;
          bucket_name = env.bucket;
          object_name = dst;
          size = req.file_size;
          ref_count = 1;
        }))
    after_record dst recorded

  unfoldable pub place_object :
      MultipartComplete → List FileChunk → ℕ → String → Result FileObject → M S Placed
  unfolding is_file_object_available rewrite_object record_object increase_ref_count
  place_object req chunks user user_name (ok obj) = do
    available ← is_file_object_available env obj
    if available then pure tt else rewrite_object req chunks obj
    increase_ref_count env obj.id
    pure (record { object_id = obj.id; dst_object = ""; created_new_object = false })
  place_object req chunks user user_name (err e) =
      if is_not_found e then record_object req chunks user user_name else fail e
  place_object req chunks user user_name unfinished = fail db_failure

  unfoldable pub remove_session : Result UploadSession → M S (Unit {0})
  remove_session (ok s) = do
    ignore (
        sql env λ w. (
          ok tt,
          record w { chunks = filter (λ c. not (env.same_text c.upload_id s.upload_id)) w.chunks },
        ))
    ignore
        (sql env λ w. (ok tt, record w { sessions = filter (λ t. not (t.id == s.id)) w.sessions }))
  remove_session (err _) = pure tt
  remove_session unfinished = pure tt

  unfoldable pub remove_blobs : List FileChunk → M S (Unit {0})
  remove_blobs [] = pure tt
  remove_blobs (c ∷ cs) = do
    ignore (stored env (env.store.remove_object env.bucket c.chunk_path))
    remove_blobs cs

  -- `cleanupUploadData`
  unfoldable pub cleanup_upload_data : ℕ → String → List FileChunk → M S (Unit {0})
  unfolding remove_blobs remove_session
  cleanup_upload_data user hash chunks = do
    remove_blobs chunks
    session ← attempt (first env (latest_session env user hash))
    remove_session session

  -- What follows the creation of the user file: the clean-up, or the way back.
  unfoldable pub finish :
      ℕ → MultipartComplete → List FileChunk → Placed → Result ℕ → M S (Unit {0})
  unfolding cleanup_upload_data decrease_ref_count
  finish user req chunks placed (ok id) = cleanup_upload_data user req.file_hash chunks
  finish user req chunks placed (err e) = do
    if placed.created_new_object
        then (do
          ignore (stored env (env.store.remove_object env.bucket placed.dst_object))
          ignore (delete_object_row env placed.object_id))
        else ignore (decrease_ref_count env placed.object_id)
    fail e
  finish user req chunks placed unfinished = fail db_failure

  -- `CompleteFile`
  unfoldable pub complete_file : MultipartComplete → String → M S (Unit {0})
  unfolding find_id_by_username find_all_chunk_file get_file_object_by_hash place_object
      create_user_file_entry finish
  complete_file req user_name = do
    user ← find_id_by_username user_name
    chunks ← find_all_chunk_file user req.file_hash
    if not (eq_ℤ (pos (length chunks)) req.total_chunks)
        then fail (message "chunks not complete")
        else pure tt
    if env.store_ready then pure tt else fail (message "storage not initialized")
    found ← attempt (get_file_object_by_hash env req.file_hash)
    placed ← place_object req chunks user user_name found
    created ← attempt (create_user_file_entry env (complete_row user req placed.object_id))
    finish user req chunks placed created
