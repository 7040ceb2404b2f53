-- ===== src/Upload.antt =====
-- Instant upload by hash (internal/service/file_object.go, internal/dto).
pub mod Safety
use cloud_vault.Base.{Option, String, false, if◌then◌else◌, none, not, some, suc, zero, ℕ, ◌&&◌}
use cloud_vault.Base.Int.{eq_ℤ, ltb_ℤ, pos, ℤ}
use cloud_vault.File.Table.{create_user_file_entry}
use cloud_vault.Object.{
  decrease_ref_count, get_file_object_by_hash, increase_ref_count, is_file_object_available,
}
use cloud_vault.Rows.{FileObject, UserFile, db_failure}
use cloud_vault.World.{
  Env, M, Result, attempt, err, fail, is_not_found, ok, pure, unfinished, ◌>>=◌, ◌>>◌,
}

-- dto.UploadFileByHashRequest, as far as `FastUpload` reads it
pub record HashUpload : Type 0 where
  pub user_id : ℕ
  pub file_name : String
  pub size : ℤ
  pub hash : String
  pub parent_id : ℕ

-- dto.FastUploadResponse: an instant upload with the new file's id, or the reason why the file
-- itself has to be sent.
pub data FastUploadResponse : Type 0 where
  instant : ℕ → FastUploadResponse
  need_upload : String → FastUploadResponse

-- The pointer that is passed for a parent id: nil for 0.
abbrev pub parent_pointer : ℕ → Option ℕ
parent_pointer zero = none
parent_pointer (suc n) = some (suc n)

-- The row of an instant upload.
abbrev pub upload_row : HashUpload → FileObject → UserFile
upload_row req obj = record {
  id = 0;
  user_id = req.user_id;
  parent_id = parent_pointer req.parent_id;
  name = req.file_name;
  is_dir = false;
  object_id = some obj.id;
  size = obj.size;
  is_deleted = false;
  deleted_at = none;
}

module _ {S : Type 0} (env : Env S) where
  -- A row for a file that shares an object: the reference is counted first, and given back if the
  -- row cannot be created.
  unfoldable pub share_object : FileObject → UserFile → M S ℕ
  unfolding increase_ref_count create_user_file_entry decrease_ref_count
  share_object obj file = do
    increase_ref_count env obj.id
    created ← attempt (create_user_file_entry env file)
    elim created [
      | ok id ↦ pure id
      | err e ↦ attempt (decrease_ref_count env obj.id) >> fail e
      | unfinished ↦ fail db_failure
    ]

  -- `FastUpload` with an object for the hash at hand.
  unfoldable pub reuse_object : HashUpload → FileObject → M S FastUploadResponse
  unfolding is_file_object_available share_object
  reuse_object req obj =
      if ltb_ℤ (pos 0) req.size && ltb_ℤ (pos 0) obj.size && not (eq_ℤ req.size obj.size)
      then pure (need_upload "size_mismatch")
      else (do
        available ← is_file_object_available env obj
        if not available
            then pure (need_upload "object_missing")
            else (do id ← share_object obj (upload_row req obj); pure (instant id)))

  -- What `FastUpload` does with the outcome of the lookup.
  unfoldable pub answer_lookup : HashUpload → Result FileObject → M S FastUploadResponse
  unfolding reuse_object
  answer_lookup req (ok obj) = reuse_object req obj
  answer_lookup req (err e) = if is_not_found e then pure (need_upload "hash_not_found") else fail e
  answer_lookup req unfinished = fail db_failure

  -- `FastUpload`
  unfoldable pub fast_upload : HashUpload → M S FastUploadResponse
  unfolding get_file_object_by_hash answer_lookup
  fast_upload req = do
    found ← attempt (get_file_object_by_hash env req.hash)
    answer_lookup req found
