-- ===== src/Requests.antt =====
-- The handlers that hand a request to one service: internal/handler/file.go, recycle.go and
-- `MultiPartFileInit` of internal/handler/minio.go; and those of the chunks of an upload,
-- `MultipartUploadChunk` and `MultipartComplete`.
--
-- A request is `none` where `ShouldBindJSON` fails, which also checks the fields that are required.
-- `user` is the user of the session. `locks` says whether `Lock` succeeds (the lock itself is modelled
-- in Lock), and `chunk_path` is the text that `UploadChunk` makes of the upload id and the index.
pub mod Chunks
use cloud_vault.Accounts.{Answer, rejected, served}
use cloud_vault.Activity.{publish}
use cloud_vault.Base.{
  Bool, List, Option, String, if◌then◌else◌, inl, inr, none, not, some, str_eq, ℕ, ◌&&◌, ◌==◌, ◌||◌,
}
use cloud_vault.Base.Int.{eq_ℤ, leb_ℤ, ltb_ℤ, pos, ℤ}
use cloud_vault.Base.Text.{Text, trim_space_string}
use cloud_vault.File.Copy.{copy_files, create_folder}
use cloud_vault.File.Edit.{batch_move_to_recycle, move_files, rename_file}
use cloud_vault.File.Recycle.{delete_file_record, restore_file}
use cloud_vault.Multipart.{
  MultiPartFileResponse, MultipartInit, get_upload_session_by_hash, get_upload_session_by_upload_id,
  multi_part_file_init, upload_chunk,
}
use cloud_vault.Multipart.Complete.{MultipartComplete, complete_file}
use cloud_vault.Rows.{UploadSession}
use cloud_vault.Source.{Net, SourceConfig, Url, validate_download_url}
use cloud_vault.Task.{create_download_task}
use cloud_vault.Transfer.{Response, upload_from_url}
use cloud_vault.Upload.{FastUploadResponse, HashUpload, fast_upload, parent_pointer}
use cloud_vault.World.{Env, M, Result, attempt, err, ok, pure, unfinished, ◌>>=◌, ◌>>◌}

pub record RenameRequest : Type 0 where
  pub file_id : ℕ
  pub new_name : String

-- dto.FileMoveRequest and dto.FileCopyRequest
pub record TargetRequest : Type 0 where
  pub file_ids : List ℕ
  pub target_id : Option ℕ

pub record FolderRequest : Type 0 where
  pub parent_id : ℕ
  pub name : String

pub record UrlUpload : Type 0 where
  pub url : Text
  pub file_name : String
  pub parent_id : ℕ

-- The form of a chunk: the index is `none` where `Atoi` fails, the size is `none` where no file came.
pub record ChunkForm : Type 0 where
  pub chunk_index : Option ℤ
  pub upload_id : String
  pub size : Option ℤ

module _ {S : Type 0} (env : Env S) where
  -- The answer to the outcome of a service
  abbrev pub answer_of : {A : Type 0} → ℕ → String → Result A → M S (Answer A)
  answer_of status text (ok a) = pure (served a)
  answer_of status text (err e) = pure (rejected status text)
  answer_of status text unfinished = λ w. (unfinished, w)

  -- What the handlers of one service have in common
  unfoldable pub handle : {R A : Type 0} → ℕ → String → (R → M S A) → Option R → M S (Answer A)
  handle status text service none = pure (rejected 400 "invalid request: ")
  handle status text service (some req) = do out ← attempt (service req); answer_of status text out

  -- `UploadFileByHash`
  unfoldable pub upload_file_by_hash : ℕ → Option HashUpload → M S (Answer FastUploadResponse)
  unfolding handle
  upload_file_by_hash user = handle 400 "" (λ req. fast_upload env (record req { user_id = user }))

  -- `RenameFile`
  unfoldable pub rename_file_request : ℕ → Option RenameRequest → M S (Answer (Unit {0}))
  unfolding handle
  rename_file_request user =
      handle 500 "rename file failed: " (λ r. rename_file env user r.file_id r.new_name)

  module _ (fuel : ℕ) where
    -- `MoveFiles`
    unfoldable pub move_files_request : ℕ → Option TargetRequest → M S (Answer (Unit {0}))
    unfolding handle
    move_files_request user =
        handle 500 "move files failed: " (λ r. move_files env fuel user r.file_ids r.target_id)

    -- `CopyFiles`
    unfoldable pub copy_files_request : ℕ → Option TargetRequest → M S (Answer (Unit {0}))
    unfolding handle
    copy_files_request user =
        handle 500 "copy files failed: " (λ r. copy_files env fuel user r.file_ids r.target_id)

    -- `DeleteFileRecord`
    unfoldable pub delete_file_request : ℕ → Option ℕ → M S (Answer (Unit {0}))
    unfolding handle
    delete_file_request user = handle 500 "delete file failed: " (delete_file_record env fuel user)

  -- `CreateFolder`
  unfoldable pub create_folder_request : ℕ → Option FolderRequest → M S (Answer (Unit {0}))
  unfolding handle
  create_folder_request user =
      handle 500 "create folder failed: "
        (λ r. create_folder env user (parent_pointer r.parent_id) r.name)

  -- `BatchDeleteFiles`
  unfoldable pub batch_delete_request : ℕ → Option (List ℕ) → M S (Answer (Unit {0}))
  unfolding handle
  batch_delete_request user = handle 500 "delete files failed: " (batch_move_to_recycle env user)

  -- `RestoreFile`
  unfoldable pub restore_file_request : ℕ → Option ℕ → M S (Answer (Unit {0}))
  unfolding handle
  restore_file_request user = handle 500 "restore file failed: " (restore_file env user)

  -- `MultiPartFileInit`
  unfoldable pub multipart_init_request :
      ℕ → Option MultipartInit → M S (Answer MultiPartFileResponse)
  unfolding handle
  multipart_init_request user =
      handle 400 "" (λ req. multi_part_file_init env (record req { user_id = user }))

  module _ (net : Net) (config : SourceConfig) (infer_name : Text → String) where
    -- `UploadFileByURL`, with `inferFileNameFromURL` as a parameter
    unfoldable pub upload_file_by_url :
        ℤ
        → ((Text → Bool) → Url → Option Response)
        → (String → String → String)
        → ℕ
        → Option UrlUpload
        → M S (Answer ℕ)
    unfolding handle
    upload_file_by_url max_bytes fetch build user none = pure (rejected 400 "invalid request: ")
    upload_file_by_url max_bytes fetch build user (some req) =
        let trimmed : String = trim_space_string req.file_name in
        let name : String = if str_eq trimmed "" then infer_name req.url else trimmed in
        if str_eq name ""
        then pure (rejected 400 "file_name required")
        else (handle 400 ""
            (λ (r : UrlUpload).
              upload_from_url env net config max_bytes fetch build user r.url name
                (parent_pointer r.parent_id))
            (some req))

    -- `HttpOfflineDownload`: the key of the task
    unfoldable pub offline_download : (ℕ → Bool) → ℕ → Option (Text × String) → M S (Answer ℕ)
    unfolding handle
    offline_download publish user none = pure (rejected 400 "")
    offline_download publish user (some (url, name)) = elim (validate_download_url net config url) [
      | inl _ ↦ pure (rejected 400 "")
      | inr _ ↦
          handle 500 "" (λ (r : Text × String). create_download_task env publish user r.0 r.1)
            (some (url, name))
    ]

  -- `MultipartUploadChunk` once the index and the upload id have been read
  unfoldable pub chunk_of_session :
      (String → ℤ → String) → ℕ → ChunkForm → ℤ → Result UploadSession → M S (Answer (Unit {0}))
  unfolding handle
  chunk_of_session chunk_path user form index (ok session) =
      if not (session.user_id == user)
      then pure (rejected 403 "upload session forbidden")
      else (if ltb_ℤ index (pos 0) || leb_ℤ session.total_chunks index
          then pure (rejected 400 "chunk index out of range")
          else (elim form.size [
            | none ↦ pure (rejected 400 "missing chunk")
            | some size ↦
                handle 500 ""
                  (λ (bytes : ℤ).
                    upload_chunk env form.upload_id env.bucket index
                      (chunk_path form.upload_id index) bytes)
                  (some size)
          ]))
  chunk_of_session chunk_path user form index (err e) =
      pure (rejected 404 "upload session not found")
  chunk_of_session chunk_path user form index unfinished =
      pure (rejected 404 "upload session not found")

  -- `MultipartUploadChunk`
  unfoldable pub multipart_upload_chunk :
      (String → ℤ → String) → ℕ → ChunkForm → M S (Answer (Unit {0}))
  unfolding chunk_of_session get_upload_session_by_upload_id
  multipart_upload_chunk chunk_path user form = elim form.chunk_index [
    | none ↦ pure (rejected 400 "invalid chunk_index")
    | some index ↦ if str_eq form.upload_id "" then pure (rejected 400 "missing upload_id") else (do
      session ← attempt (get_upload_session_by_upload_id env form.upload_id)
      chunk_of_session chunk_path user form index session)
  ]

  -- The request that `MultipartComplete` hands on: what was left out is taken from the session.
  abbrev pub filled_in : UploadSession → MultipartComplete → MultipartComplete
  filled_in s req = record req {
    total_chunks = if leb_ℤ req.total_chunks (pos 0) then s.total_chunks else req.total_chunks;
    file_size =
        if leb_ℤ req.file_size (pos 0) && ltb_ℤ (pos 0) s.file_size
        then s.file_size
        else req.file_size;
  }

  -- `MultipartComplete` with the session that was found
  unfoldable pub complete_session :
      (String → String → String)
      → (String → Bool)
      → (ℕ → String → String)
      → ℕ
      → String
      → MultipartComplete
      → Result UploadSession
      → M S (Answer (Unit {0}))
  unfolding handle
  complete_session build locks lock_key user name req (ok s) =
      if ltb_ℤ (pos 0) req.total_chunks && not (eq_ℤ req.total_chunks s.total_chunks)
      then pure (rejected 400 "total_chunks mismatch")
      else (if not (locks (lock_key user req.file_hash))
          then pure (rejected 500 "lock failed: ")
          else handle 500 "" (λ r. complete_file env build r name) (some (filled_in s req)))
  complete_session build locks lock_key user name req (err e) =
      pure (rejected 404 "upload session not found")
  complete_session build locks lock_key user name req unfinished =
      pure (rejected 404 "upload session not found")

  -- `MultipartComplete`
  unfoldable pub multipart_complete :
      (String → String → String)
      → (String → Bool)
      → (ℕ → String → String)
      → ℕ
      → String
      → Option MultipartComplete
      → M S (Answer (Unit {0}))
  unfolding complete_session get_upload_session_by_hash
  multipart_complete build locks lock_key user name none = pure (rejected 400 "")
  multipart_complete build locks lock_key user name (some req) = do
    session ← attempt (get_upload_session_by_hash env user req.file_hash)
    complete_session build locks lock_key user name req session
