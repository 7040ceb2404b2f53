-- ===== src/Downloads.antt =====
-- Downloads and previews: `MinioDownloadFile` and `MinioDownloadURL` of internal/handler/minio.go,
-- `PreviewFile` of internal/handler/file.go and `GetPreviewURL` of internal/service/preview.go.
--
-- Parameters: `copied` says how many bytes `io.Copy` has sent to the client, or that it failed, by
-- the number of the call; `presign` is the signing of an URL for a bucket and an object; `path_base`
-- is `path.Base`. The content types are left out. A request is one that was read.
pub mod Owners
pub mod Served
use cloud_vault.Accounts.{Answer, rejected, served}
use cloud_vault.Base.{Option, String, find?, if◌then◌else◌, none, not, some, str_eq, ℕ, ◌==◌}
use cloud_vault.Base.Int.{pos, ℤ}
use cloud_vault.Base.Text.{Text, codes, trim_space_string}
use cloud_vault.File.Edit.{is_active_of}
use cloud_vault.File.Recycle.{check_file_owner, get_user_file_by_id, get_user_file_by_object_id}
use cloud_vault.File.Table.{emit}
use cloud_vault.Names.{sanitize_header_filename}
use cloud_vault.Object.{get_file_object_by_hash, get_file_object_by_id}
use cloud_vault.Rows.{Action, FileObject, UserFile, message, store_failure}
use cloud_vault.Shelf.{Library, Reply, Shelver, record_recent_access}
use cloud_vault.Transfer.{minio_download_object}
use cloud_vault.World.{
  Env, M, World, attempt, err, fail, first, gets, ok, or_fail, pure, unfinished, ◌>>=◌, ◌>>◌,
}

-- dto.MinioDownloadRequest
pub record DownloadRequest : Type 0 where
  pub file_id : ℕ
  pub file_hash : String

-- A file that is sent, with the name in the header
pub record SentDownload : Type 0 where
  pub file : UserFile
  pub object : FileObject
  pub name : Text

abbrev pub name_or : String → String → String
name_or name fallback = if str_eq name "" then fallback else name

module _ {S : Type 0} (env : Env S) where
  abbrev pub shelver : Shelver
  shelver = record { db_fails = env.db_fails; clock = λ n. pos (env.clock n) }

  abbrev pub library : World S → Library
  library w = record {
    calls = w.calls;
    files = w.files;
    favorites = w.favorites;
    recents = w.recents;
  }

  -- An operation on favourites and recent files, which only reads the files.
  unfoldable pub on_shelf : (Shelver → Library → Reply × Library) → M S Reply
  on_shelf act w =
      let (reply, l) = act shelver (library w) in
      (ok reply, record w { calls = l.calls; favorites = l.favorites; recents = l.recents })

  -- The steps by the id of a file: the owner's check, the row, the object
  unfoldable pub locate_by_id : ℕ → ℕ → M S (Answer (UserFile × FileObject))
  unfolding check_file_owner get_user_file_by_id get_file_object_by_id
  locate_by_id user id = do
    owned ← check_file_owner env user id
    if not owned then pure (rejected 403 "file not found") else (do
      found ← attempt (get_user_file_by_id env id)
      elim found [
        | ok f ↦ elim f.object_id [
          | none ↦ pure (rejected 404 "file not found")
          | some object ↦ (do
            stored_as ← attempt (get_file_object_by_id env object)
            elim stored_as [
              | ok o ↦ pure (served (f, o))
              | err _ ↦ pure (rejected 404 "file not found")
              | unfinished ↦ pure (rejected 404 "file not found")
            ])
        ]
        | err _ ↦ pure (rejected 404 "file not found")
        | unfinished ↦ pure (rejected 404 "file not found")
      ])

  -- The steps by a hash: the object, then a file of the user that refers to it
  unfoldable pub locate_by_hash : ℕ → String → M S (Answer (UserFile × FileObject))
  unfolding get_file_object_by_hash get_user_file_by_object_id
  locate_by_hash user hash =
      if str_eq hash "" then pure (rejected 400 "file_id or file_hash required") else (do
        stored_as ← attempt (get_file_object_by_hash env hash)
        elim stored_as [
          | ok o ↦ (do
            found ← attempt (get_user_file_by_object_id env user o.id)
            elim found [
              | ok f ↦ pure (served (f, o))
              | err _ ↦ pure (rejected 403 "file not found")
              | unfinished ↦ pure (rejected 403 "file not found")
            ])
          | err _ ↦ pure (rejected 404 "file not found")
          | unfinished ↦ pure (rejected 404 "file not found")
        ])

  -- The first half of both handlers
  unfoldable pub locate_file : ℕ → DownloadRequest → M S (Answer (UserFile × FileObject))
  unfolding locate_by_id locate_by_hash
  locate_file user req =
      if not (req.file_id == 0)
      then locate_by_id user req.file_id
      else locate_by_hash user (trim_space_string req.file_hash)

  module _ (copied : ℕ → Option ℤ) (path_base : String → String) where
    -- The stream to the client; a whole one is recorded.
    unfoldable pub send_file : ℕ → UserFile → FileObject → M S (Answer SentDownload)
    unfolding on_shelf record_recent_access sanitize_header_filename
    send_file user f o = do
      written ← gets (λ w. copied w.calls)
      let sent : SentDownload = record {
        file = f;
        object = o;
        name = sanitize_header_filename (codes (name_or f.name (path_base o.object_name)));
      }
      elim written [
        | none ↦ pure (served sent)
        | some bytes ↦ (do
          on_shelf (λ d l. record_recent_access d user f.id (codes "download") l)
          emit user Action.download f.id bytes
          pure (served sent))
      ]

    unfoldable pub open_file : ℕ → Answer (UserFile × FileObject) → M S (Answer SentDownload)
    unfolding send_file minio_download_object
    open_file user (rejected status text) = pure (rejected status text)
    open_file user (served (f, o)) = do
      opened ← attempt (minio_download_object env o.object_name)
      elim opened [
        | ok _ ↦ send_file user f o
        | err _ ↦ pure (rejected 404 "")
        | unfinished ↦ pure (rejected 404 "")
      ]

    -- `MinioDownloadFile`
    unfoldable pub minio_download_file : ℕ → DownloadRequest → M S (Answer SentDownload)
    unfolding locate_file open_file
    minio_download_file user req = do located ← locate_file user req; open_file user located

  module _ (presign : String → String → Option String) (path_base : String → String) where
    -- The presigned URL, if there is an object store
    unfoldable pub presigned_url : String → String → M S String
    presigned_url bucket object =
        if env.store_ready
        then or_fail (presign bucket object) store_failure
        else fail (message "storage not initialized")

    unfoldable pub sign_url : ℕ → Answer (UserFile × FileObject) → M S (Answer (String × String))
    unfolding presigned_url on_shelf record_recent_access
    sign_url user (rejected status text) = pure (rejected status text)
    sign_url user (served (f, o)) = do
      signed ← attempt (presigned_url o.bucket_name o.object_name)
      elim signed [
        | ok url ↦ (do
          on_shelf (λ d l. record_recent_access d user f.id (codes "download_url") l)
          pure (served (url, name_or f.name (path_base o.object_name))))
        | err _ ↦ pure (rejected 500 "")
        | unfinished ↦ pure (rejected 500 "")
      ]

    -- `MinioDownloadURL`
    unfoldable pub minio_download_url : ℕ → DownloadRequest → M S (Answer (String × String))
    unfolding locate_file sign_url
    minio_download_url user req = do located ← locate_file user req; sign_url user located

    -- `GetPreviewURL`
    unfoldable pub get_preview_url : ℕ → ℕ → M S String
    unfolding presigned_url
    get_preview_url user id = do
      f ← first env (λ w. find? (is_active_of user id) w.files)
      object ← or_fail f.object_id (message "file not found")
      o ← first env (λ w. find? (λ o. o.id == object) w.objects)
      presigned_url o.bucket_name o.object_name

    -- `PreviewFile`, of an id that was read
    unfoldable pub preview_file : ℕ → ℕ → M S (Answer String)
    unfolding get_preview_url on_shelf record_recent_access
    preview_file user id = do
      signed ← attempt (get_preview_url user id)
      elim signed [
        | ok url ↦ (do
          on_shelf (λ d l. record_recent_access d user id (codes "preview") l)
          pure (served url))
        | err _ ↦ pure (rejected 500 "")
        | unfinished ↦ pure (rejected 500 "")
      ]
