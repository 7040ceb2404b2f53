-- ===== src/File/Copy.antt =====
-- Copying files and folders, and creating folders (internal/service/user_file.go).
use cloud_vault.Base.{
  List, Option, String, [], false, filter, if◌then◌else◌, length, ltb, map, none, not, some, suc,
  true, zero, ℕ, ◌&&◌, ◌==◌, ◌∷◌,
}
use cloud_vault.Base.Int.{pos}
use cloud_vault.File.Edit.{check_name, select_files}
use cloud_vault.File.Table.{
  check_folder, in_folder, insert_file, invalidate_file_list_cache, live, sql_eq,
}
use cloud_vault.Object.{increase_ref_count}
use cloud_vault.Rows.{UserFile, message}
use cloud_vault.World.{Env, M, fail, pure, query, unfinished, ◌>>=◌, ◌>>◌}

-- The row of a copy.
abbrev pub copy_of : ℕ → Option ℕ → UserFile → UserFile
copy_of user target f = record f {
  user_id = user;
  parent_id = target;
  is_deleted = false;
  deleted_at = none;
}

module _ {S : Type 0} (env : Env S) where
  -- The reference of a copy is counted last.
  unfoldable pub count_copy : Option ℕ → M S (Unit {0})
  count_copy none = pure tt
  count_copy (some object) = increase_ref_count env object

  -- A folder's live children are copied into the new folder by the recursive call.
  unfoldable pub copy_children :
      (List ℕ → Option ℕ → M S (Unit {0})) → UserFile → ℕ → M S (Unit {0})
  copy_children recurse file new_id =
      if file.is_dir
      then (do
        children ← query env (λ w.
            filter (λ f. sql_eq f.parent_id (some file.id) && not f.is_deleted && live f) w.files)
        if length children == 0 then pure tt else recurse (map (λ f. f.id) children) (some new_id))
      else pure tt

  -- The loop of `CopyFiles`.
  unfoldable pub copy_each :
      (List ℕ → Option ℕ → M S (Unit {0})) → ℕ → Option ℕ → List UserFile → M S (Unit {0})
  unfolding check_name insert_file copy_children count_copy
  copy_each recurse user target [] = pure tt
  copy_each recurse user target (file ∷ files) = do
    check_name env user target file.name
    row ← insert_file env (copy_of user target file)
    copy_children recurse file row.id
    count_copy file.object_id
    copy_each recurse user target files

  -- `CopyFiles`, on fuel for the depth of the folders.
  unfoldable pub copy_files : ℕ → ℕ → List ℕ → Option ℕ → M S (Unit {0})
  unfolding check_folder select_files copy_each invalidate_file_list_cache
  copy_files zero user ids target w = (unfinished, w)
  copy_files (suc fuel) user ids target w =
      (do
        check_folder env user target "target folder not found"
        files ← select_files env user ids
        copy_each (λ below into. copy_files fuel user below into) user target files
        invalidate_file_list_cache env user target)
        w

  -- `CreateFolder`
  unfoldable pub create_folder : ℕ → Option ℕ → String → M S (Unit {0})
  unfolding check_folder insert_file invalidate_file_list_cache
  create_folder user parent name = do
    check_folder env user parent "parent folder not found"
    count ← query env (λ w. length (
        filter
          (λ f.
            f.user_id == user
            && env.same_text f.name name
            && f.is_dir
            && not f.is_deleted
            && in_folder parent f
            && live f)
          w.files))
    if ltb 0 count then fail (message "folder already exists") else pure tt
    insert_file env (record {
      id = 0;
      user_id = user;
      parent_id = parent;
      name = name;
      is_dir = true;
      object_id = none;
      size = pos 0;
      is_deleted = false;
      deleted_at = none;
    })
    invalidate_file_list_cache env user parent
