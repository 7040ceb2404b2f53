-- ===== src/Rows.antt =====
-- The rows of the tables (model/*.go), as far as the modelled code reads or writes them.
-- `CreatedAt` and `UpdatedAt`, which gorm fills, and the associations, which no query loads, are
-- left out. An autoincrement key and a reference are numbers; a nil pointer is `none`.
use cloud_vault.Base.{Bool, List, Option, String, ℕ}
use cloud_vault.Base.Int.{ℤ}

-- model/user_file.go
pub record UserFile : Type 0 where
  pub id : ℕ
  pub user_id : ℕ
  pub parent_id : Option ℕ
  pub name : String
  pub is_dir : Bool
  pub object_id : Option ℕ
  pub size : ℤ
  pub is_deleted : Bool
  -- gorm's soft-delete column
  pub deleted_at : Option ℕ

-- model/file_object.go
pub record FileObject : Type 0 where
  pub id : ℕ
  pub user_id : ℕ
  pub hash : String
  pub bucket_name : String
  pub object_name : String
  pub size : ℤ
  pub ref_count : ℕ

-- model/upload_session.go
pub record UploadSession : Type 0 where
  pub id : ℕ
  pub upload_id : String
  pub user_id : ℕ
  pub file_hash : String
  pub file_name : String
  pub file_size : ℤ
  pub chunk_size : ℤ
  pub total_chunks : ℤ
  pub status : ℕ

-- model/file_chunk.go
pub record FileChunk : Type 0 where
  pub upload_id : String
  pub chunk_index : ℤ
  pub chunk_size : ℤ
  pub chunk_path : String
  pub status : ℕ

-- model/user.go
pub record User : Type 0 where
  pub id : ℕ
  pub user_name : String
  pub password : String
  pub email : String
  pub nick_name : String
  pub avatar_url : String
  pub bio : String
  pub is_active : Bool
  pub total_space : ℕ
  pub use_space : ℕ
  -- gorm's soft-delete column
  pub deleted_at : Option ℕ

-- The copy of a user in the cache: JSON leaves the password out.
abbrev pub cached_user : User → User
cached_user u = record u { password = "" }

-- What the key "register:<token>" holds (internal/handler/register.go)
pub record Registration : Type 0 where
  pub email : String
  pub username : String
  pub password : String

-- model/user_favorite.go
pub record UserFavorite : Type 0 where
  pub user_id : ℕ
  pub file_id : ℕ

-- model/user_recent.go; the source is a text of ASCII characters, so its length is in bytes.
pub record UserRecent : Type 0 where
  pub user_id : ℕ
  pub file_id : ℕ
  pub source : List ℕ
  pub access_count : ℕ
  pub last_access_at : ℤ

-- The action of an activity event (internal/activity/event.go): the four constants, and any other
-- text that a message may carry.
pub data Action : Type 0 where
  upload delete share download : Action
  other : String → Action

-- What a service hands to `activity.Emit`.
pub record Emitted : Type 0 where
  pub user_id : ℕ
  pub action : Action
  pub file_id : ℕ
  pub file_bytes : ℤ

-- The parameters of one cached page of a folder (utils/cache.go, `GetUserFileListFromCache`).
pub record ListKey : Type 0 where
  pub user_id : ℕ
  pub parent_id : ℕ
  pub page : ℤ
  pub page_size : ℤ
  pub order_by : String
  pub order_desc : Bool

-- utils/cache.go, `FileListCache`
pub record FileListCache : Type 0 where
  pub files : List UserFile
  pub total : ℕ

-- The errors that the code tells apart. `message` carries the text of an `errors.New`.
pub data Error : Type 0 where
  record_not_found duplicate_key db_failure store_failure canceled : Error
  message : String → Error
  -- a non-200 answer of a download source (service.HTTPStatusError)
  http_status : ℕ → Error

-- The states of a download task
pub data Status : Type 0 where
  pending running retrying failed completed : Status

-- model/download_task.go, as far as the code reads or writes it. The type is always "http".
pub record DownloadTask : Type 0 where
  pub id : ℕ
  pub user_id : ℕ
  pub source : List ℕ
  pub bucket : String
  pub object_name : String
  pub file_name : String
  pub status : Status
  pub progress : ℕ
  pub error_msg : Option Error
  pub retry_count : ℤ
  pub next_retry_at : Option ℤ
  pub started_at : Option ℤ
  pub finished_at : Option ℤ
