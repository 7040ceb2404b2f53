-- ===== src/File/Edit.antt =====
-- Renaming and moving files (internal/service/user_file.go).
use cloud_vault.Base.{
  Bool, List, Option, String, [], elem, false, filter, find?, if◌then◌else◌, length, ltb, none, not,
  some, suc, true, zero, ℕ, ◌&&◌, ◌++◌, ◌==◌, ◌∷◌,
}
use cloud_vault.File.Recycle.{is_file_of, recycled}
use cloud_vault.File.Table.{
  cache_parent_id, check_folder, in_folder, invalidate_file_list_cache, live, sql_eq, update_files,
}
use cloud_vault.Rows.{UserFile, message}
use cloud_vault.World.{
  Env, M, attempt, err, fail, first, now, ok, pure, query, unfinished, ◌>>=◌, ◌>>◌,
}

-- A live file of the user.
abbrev pub is_active_of : ℕ → ℕ → UserFile → Bool
is_active_of user id f = is_file_of user id f && not f.is_deleted && live f

abbrev pub is_selected : ℕ → List ℕ → UserFile → Bool
is_selected user ids f = elem f.id ids && f.user_id == user && not f.is_deleted && live f

abbrev pub renamed : String → UserFile → UserFile
renamed name f = record f { name = name }

abbrev pub moved : Option ℕ → UserFile → UserFile
moved target f = record f { parent_id = target }

-- The keys of the map `parentIDs`, in the order of their first files.
abbrev pub parent_ids : List UserFile → List ℕ → List ℕ
parent_ids [] seen = seen
parent_ids (f ∷ fs) seen = parent_ids fs (
    if elem (cache_parent_id f.parent_id) seen
    then seen
    else seen ++ cache_parent_id f.parent_id ∷ [])

module _ {S : Type 0} (env : Env S) where
  -- `RenameFile`
  unfoldable pub rename_file : ℕ → ℕ → String → M S (Unit {0})
  unfolding update_files invalidate_file_list_cache
  rename_file user id name = do
    found ← attempt (first env (λ w. find? (is_active_of user id) w.files))
    file ← elim found [
      | ok f ↦ pure f
      | err _ ↦ fail (message "file not found")
      | unfinished ↦ fail (message "file not found")
    ]
    count ← query env (λ w. length (
        filter
          (λ f.
            f.user_id == user
            && sql_eq f.parent_id file.parent_id
            && env.same_text f.name name
            && not (f.id == id)
            && not f.is_deleted
            && live f)
          w.files))
    if ltb 0 count then fail (message "file with same name already exists") else pure tt
    update_files env (λ f. f.id == file.id && live f) (renamed name)
    invalidate_file_list_cache env user file.parent_id

  -- The loop of `isChildFolder`: up from a folder to the root, each step a query. Deleted folders
  -- are not found, since the query is scoped. On fuel for the number of steps.
  unfoldable pub climbs_to : ℕ → ℕ → ℕ → Option ℕ → M S Bool
  climbs_to zero user goal parent w = (unfinished, w)
  climbs_to (suc fuel) user goal none w = (ok false, w)
  climbs_to (suc fuel) user goal (some p) w =
      let above = climbs_to fuel user goal in
      (if p == goal then pure true else (do
        found ← attempt (first env (λ v. find? (λ f. is_file_of user p f && live f) v.files))
        elim found [ ok f ↦ above f.parent_id | err _ ↦ pure false | unfinished ↦ pure false ]))
        w

  -- `isChildFolder`
  unfoldable pub is_child_folder : ℕ → ℕ → ℕ → ℕ → M S Bool
  unfolding climbs_to
  is_child_folder fuel user folder parent = do
    found ←
        attempt
          (first env (λ v. find? (λ f. is_file_of user folder f && f.is_dir && live f) v.files))
    elim found [
      | ok f ↦ climbs_to fuel user parent f.parent_id
      | err _ ↦ pure false
      | unfinished ↦ pure false
    ]

  -- The loop over the files to move, at a target that is a folder.
  unfoldable pub check_not_below : ℕ → ℕ → ℕ → List ℕ → M S (Unit {0})
  unfolding is_child_folder
  check_not_below fuel user target [] = pure tt
  check_not_below fuel user target (id ∷ ids) =
      if target == id then fail (message "cannot move folder to itself") else (do
        below ← is_child_folder fuel user target id
        if below
            then fail (message "cannot move folder to its subfolder")
            else check_not_below fuel user target ids)

  -- The checks of `MoveFiles` at its target; none are made at the root.
  unfoldable pub check_target : ℕ → ℕ → Option ℕ → List ℕ → M S (Unit {0})
  unfolding check_folder check_not_below
  check_target fuel user none ids = pure tt
  check_target fuel user (some zero) ids = pure tt
  check_target fuel user (some (suc n)) ids = do
    check_folder env user (some (suc n)) "target folder not found"
    check_not_below fuel user (suc n) ids

  -- A name that is taken in the target folder is refused.
  unfoldable pub check_name : ℕ → Option ℕ → String → M S (Unit {0})
  check_name user target name = do
    count ← query env (λ w. length (
        filter
          (λ f.
            f.user_id == user
            && env.same_text f.name name
            && not f.is_deleted
            && in_folder target f
            && live f)
          w.files))
    if ltb 0 count then fail (message "file already exists in target folder") else pure tt

  unfoldable pub check_names : ℕ → Option ℕ → List UserFile → M S (Unit {0})
  unfolding check_name
  check_names user target [] = pure tt
  check_names user target (f ∷ fs) = do check_name user target f.name; check_names user target fs

  unfoldable pub invalidate_all : ℕ → List ℕ → M S (Unit {0})
  unfolding invalidate_file_list_cache
  invalidate_all user [] = pure tt
  invalidate_all user (p ∷ ps) = do
    invalidate_file_list_cache env user (some p)
    invalidate_all user ps

  -- The files that a batch names: each of them has to be found.
  unfoldable pub select_files : ℕ → List ℕ → M S (List UserFile)
  select_files user ids = do
    files ← query env (λ w. filter (is_selected user ids) w.files)
    if length files == length ids then pure files else fail (message "some files not found")

  -- `MoveFiles`
  unfoldable pub move_files : ℕ → ℕ → List ℕ → Option ℕ → M S (Unit {0})
  unfolding check_target select_files check_names update_files invalidate_all
      invalidate_file_list_cache
  move_files fuel user ids target = do
    check_target fuel user target ids
    files ← select_files user ids
    check_names user target files
    update_files env (is_selected user ids) (moved target)
    invalidate_all user (parent_ids files [])
    invalidate_file_list_cache env user target

  -- `BatchMoveToRecycle`
  unfoldable pub batch_move_to_recycle : ℕ → List ℕ → M S (Unit {0})
  unfolding update_files invalidate_all
  batch_move_to_recycle user ids = do
    time ← now env
    files ← query env (λ w. filter (is_selected user ids) w.files)
    update_files env (is_selected user ids) (recycled time)
    invalidate_all user (parent_ids files [])
