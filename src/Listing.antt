-- ===== src/Listing.antt =====
-- Listings of files, by pages: `GetFileList` and `ListRecycleFiles` of internal/service/user_file.go,
-- `SearchFiles` of internal/service/search.go, with the cache of lists of utils/cache.go, and the
-- handler `GetFileList` of internal/handler/file.go.
--
-- Parameters: `ordered` is MySQL's ORDER BY a text, and `like` its comparison of a name with a query
-- between two percent signs. Pages and sizes are at least 1, as the handlers see to; a product beyond
-- 64 bits wraps, and gorm leaves out an offset that is not positive.
pub mod Pages
pub mod Shown
use cloud_vault.Accounts.{Answer, rejected, served}
use cloud_vault.Base.{
  Bool, List, Option, String, [], filter, if◌then◌else◌, length, ltb, none, not, some, str_eq, suc,
  zero, ℕ, ◌%◌, ◌&&◌, ◌*◌, ◌++◌, ◌-◌, ◌==◌, ◌∷◌,
}
use cloud_vault.Base.Int.{eq_ℤ, leb_ℤ, pos, pos_part, ℤ}
use cloud_vault.Base.Text.{Text, codes}
use cloud_vault.Downloads.{on_shelf}
use cloud_vault.File.Table.{cache_parent_id, in_folder, live}
use cloud_vault.Names.{sanitize_order_by}
use cloud_vault.Rows.{FileListCache, ListKey, UserFile}
use cloud_vault.Shelf.{record_recent_access}
use cloud_vault.Visits.{take_rows}
use cloud_vault.World.{
  Env, M, World, attempt, err, ok, pure, query, redis, redis_get, unfinished, ◌>>=◌, ◌>>◌,
}

-- dto.FileListRequest
pub record ListRequest : Type 0 where
  pub parent_id : Option ℕ
  pub page : ℤ
  pub page_size : ℤ
  pub order_by : String
  pub order_desc : Bool

-- The text of ORDER BY
unfoldable pub order_clause : Text → Bool → Text
unfolding sanitize_order_by
order_clause order_by desc = elim (sanitize_order_by order_by) [
  | [] ↦ codes "is_dir DESC, created_at DESC"
  | c ∷ column ↦ codes "is_dir DESC, " ++ (c ∷ column) ++ codes (if desc then " DESC" else " ASC")
]

abbrev pub drop_rows {ℓ} : {A : Type ℓ} → ℕ → List A → List A
drop_rows zero rows = rows
drop_rows (suc n) [] = []
drop_rows (suc n) (row ∷ rows) = drop_rows n rows

-- A product of int64, as an offset
abbrev pub wrapped_offset : ℕ → ℕ
wrapped_offset n =
    let wrapped = n % 18446744073709551616 in if ltb wrapped 9223372036854775808 then wrapped else 0

-- `(page - 1) * size`
abbrev pub offset_of : ℤ → ℤ → ℕ
offset_of page size = wrapped_offset ((pos_part page - 1) * pos_part size)

-- `Offset` and `Limit`
unfoldable pub page_of {ℓ} : {A : Type ℓ} → ℤ → ℤ → List A → List A
page_of page size rows = take_rows (pos_part size) (drop_rows (offset_of page size) rows)

abbrev pub same_key : ListKey → ListKey → Bool
same_key j k =
    j.user_id == k.user_id
    && j.parent_id == k.parent_id
    && eq_ℤ j.page k.page
    && eq_ℤ j.page_size k.page_size
    && str_eq j.order_by k.order_by
    && (if j.order_desc then k.order_desc else not k.order_desc)

-- `SetUserFileListToCache`
abbrev pub put_list_cache : {S : Type 0} → ListKey → FileListCache → World S → World S
put_list_cache key c w = record w {
  list_cache = λ k. if same_key k key then some c else w.list_cache k;
}

abbrev pub key_of : ℕ → ListRequest → ListKey
key_of user req = record {
  user_id = user;
  parent_id = cache_parent_id req.parent_id;
  page = req.page;
  page_size = req.page_size;
  order_by = req.order_by;
  order_desc = req.order_desc;
}

-- The rows of a folder
abbrev pub is_listed : ℕ → Option ℕ → UserFile → Bool
is_listed user parent f = f.user_id == user && not f.is_deleted && live f && in_folder parent f

-- The handler's defaults
abbrev pub with_defaults : ListRequest → ListRequest
with_defaults req = record req {
  page = if leb_ℤ req.page (pos 0) then pos 1 else req.page;
  page_size = if leb_ℤ req.page_size (pos 0) then pos 20 else req.page_size;
}

module _ {S : Type 0} (env : Env S) where
  -- The visit to a folder is recorded; the root is none.
  unfoldable pub record_browse : ℕ → Option ℕ → M S (Unit {0})
  unfolding on_shelf record_recent_access
  record_browse user none = pure tt
  record_browse user (some zero) = pure tt
  record_browse user (some (suc n)) = do
    on_shelf env (λ d l. record_recent_access d user (suc n) (codes "browse") l)
    pure tt

module _ {S : Type 0} (env : Env S) (ordered : Text → List UserFile → List UserFile) where
  -- The two queries of a listing: how many rows there are, and those of the page
  unfoldable pub list_rows : (UserFile → Bool) → ListRequest → M S FileListCache
  unfolding order_clause page_of
  list_rows test req = do
    total ← query env (λ w. length (filter test w.files))
    files ← query env (λ w.
        page_of req.page req.page_size
          (ordered (order_clause (codes req.order_by) req.order_desc) (filter test w.files)))
    pure (record { files = files; total = total })

  -- `GetFileList`
  unfoldable pub get_file_list : ℕ → ListRequest → M S FileListCache
  unfolding list_rows
  get_file_list user req = do
    cached ← redis_get env (λ w. w.list_cache (key_of user req))
    elim cached [
      | some c ↦ pure c
      | none ↦ (do
        c ← list_rows (is_listed user req.parent_id) req
        redis env (put_list_cache (key_of user req) c)
        pure c)
    ]

  -- `SearchFiles`
  unfoldable pub search_files :
      (String → String → Bool) → ℕ → String → ListRequest → M S FileListCache
  unfolding list_rows
  search_files like user text req =
      list_rows (λ f. is_listed user req.parent_id f && like f.name text) req

  -- `ListRecycleFiles`
  unfoldable pub list_recycle_files : ℕ → M S (List UserFile)
  list_recycle_files user = query env (λ w.
      ordered (codes "deleted_at DESC") (filter (λ f. f.user_id == user && f.is_deleted) w.files))

  -- `GetFileList` of internal/handler/file.go
  unfoldable pub get_file_list_request : ℕ → ListRequest → M S (Answer FileListCache)
  unfolding get_file_list record_browse
  get_file_list_request user asked = do
    let req : ListRequest = with_defaults asked
    listed ← attempt (get_file_list user req)
    elim listed [
      | ok c ↦ (do record_browse env user req.parent_id; pure (served c))
      | err _ ↦ pure (rejected 500 "")
      | unfinished ↦ pure (rejected 500 "")
    ]
