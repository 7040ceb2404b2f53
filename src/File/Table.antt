-- ===== src/File/Table.antt =====
-- The `user_file` table with its unique key, the list cache, and the creation of entries
-- (internal/service/user_file.go, utils/cache.go, model/user_file.go).
use cloud_vault.Base.{
  Bool, List, Option, String, [], any, eqb, false, filter, find?, if◌then◌else◌, is_none, none, not,
  some, suc, true, update_where, zero, ℕ, ◌&&◌, ◌++◌, ◌+◌, ◌==◌, ◌∷◌,
}
use cloud_vault.Base.Int.{pos, ℤ}
use cloud_vault.Rows.{Action, Emitted, UserFile, duplicate_key, message}
use cloud_vault.World.{
  Env, M, World, attempt, err, fail, first, ok, pure, redis, sql, unfinished, ◌>>=◌, ◌>>◌,
}

-- gorm adds `deleted_at IS NULL` to every statement that is not `Unscoped`.
abbrev pub live : UserFile → Bool
live f = is_none f.deleted_at

-- `parent_id = ?` in SQL: a comparison with NULL holds of no row.
abbrev pub sql_eq : Option ℕ → Option ℕ → Bool
sql_eq (some a) (some b) = a == b
sql_eq (some a) none = false
sql_eq none b = false

-- `parent_id IS NULL` for the root, which a nil pointer and 0 both name, else `parent_id = ?`.
abbrev pub in_folder : Option ℕ → UserFile → Bool
in_folder none f = is_none f.parent_id
in_folder (some zero) f = is_none f.parent_id
in_folder (some (suc n)) f = sql_eq f.parent_id (some (suc n))

-- `cacheParentID`
abbrev pub cache_parent_id : Option ℕ → ℕ
cache_parent_id none = 0
cache_parent_id (some n) = n

-- `InvalidateUserFileListCache`: the keys that begin with the user and the folder.
abbrev pub drop_list_cache : {S : Type 0} → ℕ → ℕ → World S → World S
drop_list_cache user parent w = record w {
  list_cache = λ k. if k.user_id == user && k.parent_id == parent then none else w.list_cache k;
}

-- `activity.Emit`, whose error is dropped
abbrev pub emit : {S : Type 0} → ℕ → Action → ℕ → ℤ → M S (Unit {0})
emit user action file bytes w =
    let e : Emitted = record {
      user_id = user;
      action = action;
      file_id = file;
      file_bytes = bytes;
    } in
    (ok tt, record w { events = w.events ++ e ∷ [] })

module _ {S : Type 0} (env : Env S) where
  -- Two rows that the index `uk_user_parent_name_active` keeps apart.
  unfoldable pub clashes : UserFile → UserFile → Bool
  clashes f g =
      not (f.id == g.id)
      && f.user_id == g.user_id
      && sql_eq f.parent_id g.parent_id
      && env.same_text f.name g.name
      && eqb f.is_deleted g.is_deleted

  -- `Create`
  unfoldable pub insert_file : UserFile → M S UserFile
  unfolding clashes
  insert_file f = sql env λ w.
      let row : UserFile = record f { id = w.next_file } in
      if any (clashes row) w.files
      then (err duplicate_key, w)
      else (ok row, record w { files = w.files ++ row ∷ []; next_file = w.next_file + 1 })

  -- `Updates`: refused as a whole if two rows of the result clash.
  unfoldable pub update_files : (UserFile → Bool) → (UserFile → UserFile) → M S (Unit {0})
  unfolding clashes
  update_files test change = sql env λ w.
      let rows : List UserFile = update_where test change w.files in
      if any (λ f. any (clashes f) rows) rows
      then (err duplicate_key, w)
      else (ok tt, record w { files = rows })

  -- `Unscoped().Delete(&model.UserFile{}, id)`
  unfoldable pub erase_file : ℕ → M S (Unit {0})
  erase_file id = sql env λ w. (ok tt, record w { files = filter (λ f. not (f.id == id)) w.files })

  -- `invalidateFileListCache`
  unfoldable pub invalidate_file_list_cache : ℕ → Option ℕ → M S (Unit {0})
  invalidate_file_list_cache user parent = redis env (drop_list_cache user (cache_parent_id parent))

  -- `CreateUserFile`: a new row for the file, whose id is returned.
  unfoldable pub create_user_file : UserFile → M S ℕ
  unfolding insert_file invalidate_file_list_cache
  create_user_file f = if is_none f.object_id then fail (message "file must have objectId") else (do
    row ← insert_file (record f { is_dir = false; is_deleted = false; deleted_at = none })
    invalidate_file_list_cache f.user_id f.parent_id
    emit f.user_id Action.upload row.id row.size
    pure row.id)

  -- A live folder of the user.
  abbrev pub is_folder_of : ℕ → ℕ → UserFile → Bool
  is_folder_of user id f = f.id == id && f.user_id == user && f.is_dir && not f.is_deleted && live f

  -- The check of a target folder: none is made for a nil pointer or 0.
  unfoldable pub check_folder : ℕ → Option ℕ → String → M S (Unit {0})
  check_folder user none msg = pure tt
  check_folder user (some zero) msg = pure tt
  check_folder user (some (suc n)) msg = do
    found ← attempt (first env (λ w. find? (is_folder_of user (suc n)) w.files))
    elim found [ ok _ ↦ pure tt | err _ ↦ fail (message msg) | unfinished ↦ pure tt ]

  -- `CreateUserDir`
  unfoldable pub create_user_dir : UserFile → M S ℕ
  unfolding check_folder insert_file invalidate_file_list_cache
  create_user_dir f = do
    check_folder f.user_id f.parent_id "parent not exist or not dir"
    row ← insert_file (record f {
      is_dir = true;
      object_id = none;
      size = pos 0;
      is_deleted = false;
      deleted_at = none;
    })
    invalidate_file_list_cache f.user_id f.parent_id
    pure row.id

  -- `CreateUserFileEntry`
  unfoldable pub create_user_file_entry : UserFile → M S ℕ
  unfolding create_user_file create_user_dir
  create_user_file_entry f = if f.is_dir then create_user_dir f else create_user_file f
