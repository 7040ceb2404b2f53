-- ===== src/Multipart.antt =====
-- Multipart upload: the session, its chunks, and their composition
-- (internal/service/file_object.go).
pub mod Complete
pub mod Safety
use cloud_vault.Base.{
  Bool, List, String, [], any, false, filter, find?, if◌then◌else◌, length, map, none, some,
  update_where, ℕ, ◌&&◌, ◌++◌, ◌+◌, ◌==◌, ◌∷◌,
}
use cloud_vault.Base.Int.{eq_ℤ, ℤ}
use cloud_vault.Object.{get_file_object_by_hash, is_file_object_available, latest_session}
use cloud_vault.Rows.{
  FileChunk, FileObject, UploadSession, UserFile, db_failure, duplicate_key, message,
}
use cloud_vault.Upload.{parent_pointer, share_object}
use cloud_vault.World.{
  Env, M, Result, World, attempt, err, fail, first, is_not_found, new_token, ok, pure, query, sql,
  stored, unfinished, ◌>>=◌, ◌>>◌,
}

-- dto.MultipartInitRequest, as far as `MultiPartFileInit` reads it
pub record MultipartInit : Type 0 where
  pub user_id : ℕ
  pub file_name : String
  pub size : ℤ
  pub hash : String
  pub chunk_size : ℤ
  pub total_chunks : ℤ
  pub parent_id : ℕ

-- dto.MultiPartFileResponse: an instant upload, or the session and the chunks that it has.
pub data MultiPartFileResponse : Type 0 where
  instant_file : MultiPartFileResponse
  session_open : String → List ℤ → MultiPartFileResponse

-- The row of an instant upload.
abbrev pub init_row : MultipartInit → FileObject → UserFile
init_row req obj = record {
  id = 0;
  user_id = req.user_id;
  parent_id = parent_pointer req.parent_id;
  name = req.file_name;
  is_dir = false;
  object_id = some obj.id;
  size = obj.size;
  is_deleted = false;
  deleted_at = none;
}

module _ {S : Type 0} (env : Env S) where
  -- `CreateUploadSession`
  unfoldable pub create_upload_session : MultipartInit → M S (Unit {0})
  create_upload_session req = do
    token ← new_token env
    sql env λ w.
        let session : UploadSession = record {
          id = w.next_session;
          upload_id = token;
          user_id = req.user_id;
          file_hash = req.hash;
          file_name = req.file_name;
          file_size = req.size;
          chunk_size = req.chunk_size;
          total_chunks = req.total_chunks;
          status = 0;
        } in
        if any (λ s. env.same_text s.upload_id token) w.sessions then (err duplicate_key, w) else (
          ok tt,
          record w { sessions = w.sessions ++ session ∷ []; next_session = w.next_session + 1 },
        )

  -- `GetUploadSessionByUploadID`
  unfoldable pub get_upload_session_by_upload_id : String → M S UploadSession
  get_upload_session_by_upload_id upload_id =
      first env (λ w. find? (λ s. env.same_text s.upload_id upload_id) w.sessions)

  -- `GetUploadSessionByHash`
  unfoldable pub get_upload_session_by_hash : ℕ → String → M S UploadSession
  get_upload_session_by_hash user hash = first env (latest_session env user hash)

  -- The stored chunks of a session.
  abbrev pub stored_chunks : String → World S → List FileChunk
  stored_chunks upload_id w =
      filter (λ c. env.same_text c.upload_id upload_id && c.status == 1) w.chunks

  -- `CheckChunkNum`: no session counts as no chunk.
  unfoldable pub chunks_of_session : Result UploadSession → M S (List FileChunk)
  chunks_of_session (ok s) = query env (stored_chunks s.upload_id)
  chunks_of_session (err e) = if is_not_found e then pure [] else fail e
  chunks_of_session unfinished = fail db_failure

  unfoldable pub check_chunk_num : ℕ → String → M S (List FileChunk)
  unfolding chunks_of_session
  check_chunk_num user hash = do
    session ← attempt (first env (latest_session env user hash))
    chunks_of_session session

  -- The upload id that the answer carries: empty if the session cannot be read.
  abbrev pub upload_id_of : Result UploadSession → String
  upload_id_of (ok s) = s.upload_id
  upload_id_of (err _) = ""
  upload_id_of unfinished = ""

  -- `MultiPartFileInit` from the label `uploadFlow` on
  unfoldable pub upload_flow : MultipartInit → M S MultiPartFileResponse
  unfolding check_chunk_num create_upload_session
  upload_flow req = do
    chunks ← check_chunk_num req.user_id req.hash
    if length chunks == 0 then create_upload_session req else pure tt
    session ← attempt (first env (latest_session env req.user_id req.hash))
    pure (session_open (upload_id_of session) (map (λ c. c.chunk_index) chunks))

  unfoldable pub init_found : MultipartInit → Result FileObject → M S MultiPartFileResponse
  unfolding is_file_object_available share_object upload_flow
  init_found req (ok obj) = do
    available ← is_file_object_available env obj
    if available
        then share_object env obj (init_row req obj) >> pure instant_file
        else upload_flow req
  init_found req (err e) = if is_not_found e then upload_flow req else fail e
  init_found req unfinished = fail db_failure

  -- `MultiPartFileInit`
  unfoldable pub multi_part_file_init : MultipartInit → M S MultiPartFileResponse
  unfolding get_file_object_by_hash init_found
  multi_part_file_init req = do
    found ← attempt (get_file_object_by_hash env req.hash)
    init_found req found

  -- `UploadChunk`, after the file of the request has been opened: a chunk that is sent again takes
  -- the place of the one before. `path` is the text that `fmt.Sprintf("chunks/%s/%d", …)` makes of
  -- the upload id and the index.
  unfoldable pub upload_chunk : String → String → ℤ → String → ℤ → M S (Unit {0})
  upload_chunk upload_id bucket index path size =
      if env.store_ready
      then (do
        stored env (env.store.put_object bucket path size)
        sql env λ w.
            let chunk : FileChunk = record {
              upload_id = upload_id;
              chunk_index = index;
              chunk_size = size;
              chunk_path = path;
              status = 1;
            } in
            let is_same : FileChunk → Bool =
              (λ c. env.same_text c.upload_id upload_id && eq_ℤ c.chunk_index index) in
            (
              ok tt,
              if any is_same w.chunks
                  then record w {
                    chunks =
                        update_where is_same
                          (λ c. record c { chunk_size = size; chunk_path = path; status = 1 })
                          w.chunks;
                  }
                  else record w { chunks = w.chunks ++ chunk ∷ [] },
            ))
      else fail (message "storage not initialized")
