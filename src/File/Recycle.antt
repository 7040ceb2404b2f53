-- ===== src/File/Recycle.antt =====
-- The recycle bin (internal/service/user_file.go): moving in, restoring, and deleting for good.
use cloud_vault.Base.{
  Bool, List, Option, [], false, filter, find?, if◌then◌else◌, length, ltb, none, not, some, suc,
  true, zero, ℕ, ◌&&◌, ◌==◌, ◌∷◌,
}
use cloud_vault.Base.Int.{pos, ℤ, ◌+ℤ◌}
use cloud_vault.File.Table.{
  emit, erase_file, invalidate_file_list_cache, live, sql_eq, update_files,
}
use cloud_vault.Object.{remove_object}
use cloud_vault.Rows.{Action, UserFile, message}
use cloud_vault.World.{
  Env, M, attempt, err, fail, first, now, ok, pure, query, unfinished, ◌>>=◌, ◌>>◌,
}

-- A file of the user by its id.
abbrev pub is_file_of : ℕ → ℕ → UserFile → Bool
is_file_of user id f = f.id == id && f.user_id == user

abbrev pub recycled : ℕ → UserFile → UserFile
recycled time f = record f { is_deleted = true; deleted_at = some time }

abbrev pub restored : UserFile → UserFile
restored f = record f { is_deleted = false; deleted_at = none }

module _ {S : Type 0} (env : Env S) where
  -- `getFileParentID`
  unfoldable pub get_file_parent_id : ℕ → ℕ → M S (Option ℕ)
  get_file_parent_id user id = do
    file ← first env (λ w. find? (is_file_of user id) w.files)
    pure file.parent_id

  -- `MoveToRecycle`
  unfoldable pub move_to_recycle : ℕ → ℕ → M S (Unit {0})
  unfolding get_file_parent_id update_files invalidate_file_list_cache
  move_to_recycle user id = do
    time ← now env
    parent ← get_file_parent_id user id
    update_files env (λ f. is_file_of user id f && not f.is_deleted && live f) (recycled time)
    invalidate_file_list_cache env user parent

  -- `RestoreFile`
  unfoldable pub restore_file : ℕ → ℕ → M S (Unit {0})
  unfolding get_file_parent_id update_files invalidate_file_list_cache
  restore_file user id = do
    parent ← get_file_parent_id user id
    update_files env (λ f. is_file_of user id f && f.is_deleted) restored
    invalidate_file_list_cache env user parent

  -- `GetDeletedFile`
  unfoldable pub get_deleted_file : ℕ → ℕ → M S UserFile
  get_deleted_file user id =
      first env (λ w. find? (λ f. is_file_of user id f && f.is_deleted) w.files)

  -- The reference that a file row held is given back.
  unfoldable pub release_object : Option ℕ → M S (Unit {0})
  release_object none = pure tt
  release_object (some object) = remove_object env object

  -- The loop of `deleteFolderRecursively` over the children that were read, with the recursive call
  -- as an argument.
  unfoldable pub delete_children : (ℕ → M S ℤ) → List UserFile → ℤ → M S ℤ
  unfolding erase_file release_object
  delete_children recurse [] bytes = pure bytes
  delete_children recurse (child ∷ children) bytes =
      if child.is_dir
      then (do
        child_bytes ← recurse child.id
        erase_file env child.id
        delete_children recurse children (bytes +ℤ child_bytes))
      else (do
        erase_file env child.id
        release_object child.object_id
        delete_children recurse children (bytes +ℤ child.size))

  -- `deleteFolderRecursively`, on fuel for the depth of the folders.
  unfoldable pub delete_folder_recursively : ℕ → ℕ → M S ℤ
  unfolding delete_children
  delete_folder_recursively zero folder w = (unfinished, w)
  delete_folder_recursively (suc fuel) folder w =
      (query env (λ v. filter (λ f. sql_eq f.parent_id (some folder)) v.files) >>= λ rows.
      delete_children (delete_folder_recursively fuel) rows (pos 0))
        w

  -- `DeleteFileRecord`
  unfoldable pub delete_file_record : ℕ → ℕ → ℕ → M S (Unit {0})
  unfolding get_deleted_file delete_folder_recursively erase_file release_object
      invalidate_file_list_cache
  delete_file_record fuel user id = do
    found ← attempt (get_deleted_file user id)
    file ← elim found [
      | ok f ↦ pure f
      | err _ ↦ fail (message "file not found")
      | unfinished ↦ fail (message "file not found")
    ]
    bytes ←
        if file.is_dir
        then delete_folder_recursively fuel file.id
        else (do erase_file env id; release_object file.object_id; pure file.size)
    if file.is_dir then erase_file env id else pure tt
    invalidate_file_list_cache env user file.parent_id
    emit user Action.delete id bytes

  -- `CheckFileOwner`: a failed count counts as no.
  unfoldable pub check_file_owner : ℕ → ℕ → M S Bool
  check_file_owner user id = do
    count ← attempt (
        query env
          (λ w. length (filter (λ f. is_file_of user id f && not f.is_deleted && live f) w.files)))
    elim count [ ok n ↦ pure (ltb 0 n) | err _ ↦ pure false | unfinished ↦ pure false ]

  -- `GetUserFileById`
  unfoldable pub get_user_file_by_id : ℕ → M S UserFile
  get_user_file_by_id id =
      first env (λ w. find? (λ f. f.id == id && not f.is_deleted && live f) w.files)

  -- `GetUserFileByObjectID`
  unfoldable pub get_user_file_by_object_id : ℕ → ℕ → M S UserFile
  get_user_file_by_object_id user object = first env λ w.
      find?
        (λ f.
          f.user_id == user
          && sql_eq f.object_id (some object)
          && not f.is_deleted
          && not f.is_dir
          && live f)
        w.files
