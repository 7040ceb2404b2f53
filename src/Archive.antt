-- ===== src/Archive.antt =====
-- Archives of files and folders: internal/service/archive.go, and `DownloadArchive` of
-- internal/handler/file.go.
--
-- Parameters: `path_join` is `path.Join` of two texts; `created` and `copied` say by the number of
-- calls whether `zipWriter.Create` and `io.Copy` succeed. The text of the error for a file without an
-- object leaves out the id. `collectArchiveChildren` calls itself for each folder, and takes fuel.
pub mod Contents
pub mod Held
pub mod Paths
use cloud_vault.Accounts.{Answer, rejected, served}
use cloud_vault.Base.{
  Bool, List, Option, String, [], false, filter, find?, if◌then◌else◌, length, none, not, some, suc,
  true, zero, ℕ, ◌&&◌, ◌++◌, ◌==◌, ◌∷◌,
}
use cloud_vault.Base.Text.{Text, codes}
use cloud_vault.Downloads.{name_or}
use cloud_vault.File.Edit.{is_active_of}
use cloud_vault.File.Table.{live, sql_eq}
use cloud_vault.Names.{sanitize_archive_name, sanitize_header_filename}
use cloud_vault.Object.{get_file_object_by_id}
use cloud_vault.Rows.{FileObject, UserFile, message}
use cloud_vault.World.{
  Env, M, attempt, err, fail, first, gets, ok, pure, query, stored, unfinished, ◌>>=◌, ◌>>◌,
}

pub record ArchiveEntry : Type 0 where
  pub zip_path : Text
  pub file_obj : Option FileObject
  pub is_dir : Bool

-- dto.ArchiveDownloadRequest
pub record ArchiveRequest : Type 0 where
  pub file_ids : List ℕ
  pub name : String

-- An archive that was sent: its name, the entries in it, and whether it is whole
pub record SentArchive : Type 0 where
  pub name : Text
  pub entries : List ArchiveEntry
  pub whole : Bool

abbrev pub folder_entry : Text → ArchiveEntry
folder_entry path = record { zip_path = path ++ codes "/"; file_obj = none; is_dir = true }

abbrev pub file_entry : Text → FileObject → ArchiveEntry
file_entry path o = record { zip_path = path; file_obj = some o; is_dir = false }

-- A child of the folder that is read
abbrev pub is_child_of : ℕ → ℕ → UserFile → Bool
is_child_of user folder f =
    sql_eq f.parent_id (some folder) && f.user_id == user && not f.is_deleted && live f

module _ {S : Type 0} (env : Env S) where
  -- The object of a file that is no folder
  unfoldable pub object_of : UserFile → M S FileObject
  unfolding get_file_object_by_id
  object_of f = elim f.object_id [
    | none ↦ fail (message "file has no object")
    | some id ↦ get_file_object_by_id env id
  ]

  -- What one file adds to the entries, with the call for the children of a folder as an argument
  unfoldable pub add_entry :
      (ℕ → Text → List ArchiveEntry → M S (List ArchiveEntry))
      → UserFile
      → Text
      → List ArchiveEntry
      → M S (List ArchiveEntry)
  unfolding object_of
  add_entry recurse f path entries =
      if f.is_dir
      then recurse f.id path (entries ++ folder_entry path ∷ [])
      else (do o ← object_of f; pure (entries ++ file_entry path o ∷ []))

  module _ (path_join : Text → Text → Text) where
    -- The loop of `collectArchiveChildren`
    unfoldable pub add_children :
        (ℕ → Text → List ArchiveEntry → M S (List ArchiveEntry))
        → Text
        → List UserFile
        → List ArchiveEntry
        → M S (List ArchiveEntry)
    unfolding add_entry
    add_children recurse prefix [] entries = pure entries
    add_children recurse prefix (child ∷ children) entries = do
      more ←
          add_entry recurse child (path_join prefix (sanitize_archive_name (codes child.name)))
            entries
      add_children recurse prefix children more

    -- `collectArchiveChildren`, on fuel for the depth of the folders
    unfoldable pub collect_archive_children :
        ℕ → ℕ → ℕ → Text → List ArchiveEntry → M S (List ArchiveEntry)
    unfolding add_children
    collect_archive_children zero user folder prefix entries w = (unfinished, w)
    collect_archive_children (suc fuel) user folder prefix entries w =
        (query env (λ v. filter (is_child_of user folder) v.files) >>= λ children.
        add_children (collect_archive_children fuel user) prefix children entries)
          w

    -- The loop of `BuildArchiveEntries`
    unfoldable pub add_files : ℕ → ℕ → List ℕ → List ArchiveEntry → M S (List ArchiveEntry)
    unfolding collect_archive_children add_entry
    add_files fuel user [] entries = pure entries
    add_files fuel user (id ∷ ids) entries = do
      f ← first env (λ w. find? (is_active_of user id) w.files)
      more ←
          add_entry (collect_archive_children fuel user) f (sanitize_archive_name (codes f.name))
            entries
      add_files fuel user ids more

    -- `BuildArchiveEntries`
    unfoldable pub build_archive_entries : ℕ → ℕ → List ℕ → M S (List ArchiveEntry)
    unfolding add_files
    build_archive_entries fuel user ids = add_files fuel user ids []

    module _ (created copied : ℕ → Bool) where
      -- The content of an entry: whether it was written
      unfoldable pub write_object : FileObject → M S Bool
      write_object o =
          if env.store_ready
          then (do
            opened ← attempt (stored env (env.store.get_object o.bucket_name o.object_name))
            elim opened [
              | ok _ ↦ gets (λ w. created w.calls && copied w.calls)
              | err _ ↦ pure false
              | unfinished ↦ pure false
            ])
          else pure false

      unfoldable pub write_entry : ArchiveEntry → M S Bool
      unfolding write_object
      write_entry e =
          if e.is_dir
          then gets (λ w. created w.calls)
          else elim e.file_obj [ none ↦ pure false | some o ↦ write_object o ]

      -- The loop of `DownloadArchive`: the entries that are written whole, and whether all are
      unfoldable pub write_entries : List ArchiveEntry → M S (List ArchiveEntry × Bool)
      unfolding write_entry
      write_entries [] = pure ([], true)
      write_entries (e ∷ entries) = do
        done ← write_entry e
        if done
            then (do (written, whole) ← write_entries entries; pure (e ∷ written, whole))
            else pure ([], false)

      -- `DownloadArchive`
      unfoldable pub download_archive : ℕ → ℕ → ArchiveRequest → M S (Answer SentArchive)
      unfolding build_archive_entries write_entries sanitize_header_filename
      download_archive fuel user req =
          if length req.file_ids == 0 then pure (rejected 400 "file_ids required") else (do
            built ← attempt (build_archive_entries fuel user req.file_ids)
            elim built [
              | ok entries ↦ (do
                (written, whole) ← write_entries entries
                pure (
                    served (record {
                      name = sanitize_header_filename (codes (name_or req.name "archive.zip"));
                      entries = written;
                      whole = whole;
                    })))
              | err _ ↦ pure (rejected 400 "")
              | unfinished ↦ pure (rejected 400 "")
            ])
