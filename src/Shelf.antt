-- ===== src/Shelf.antt =====
-- Favourites and recent files: internal/service/user_library.go, the operations that write.
--
-- `Library` holds the rows that they read and write; `Shelver` says which statement fails and what the
-- clock shows, by the number of the call. The two tables have a unique key of user and file, which
-- the statements name in their ON CONFLICT clauses.
pub mod Marks
use cloud_vault.Base.{
  Bool, List, [], any, filter, if◌then◌else◌, is_none, length, ltb, not, suc, zero, ℕ, ◌&&◌, ◌++◌,
  ◌+◌, ◌==◌, ◌||◌, ◌∷◌,
}
use cloud_vault.Base.Int.{ℤ}
use cloud_vault.Base.Text.{Text, codes, text_eq, to_lower, trim_space}
use cloud_vault.Rows.{UserFavorite, UserFile, UserRecent}

pub record Library : Type 0 where
  pub calls : ℕ
  pub files : List UserFile
  pub favorites : List UserFavorite
  pub recents : List UserRecent

pub record Shelver : Type 0 where
  pub db_fails : ℕ → Bool
  pub clock : ℕ → ℤ

pub data Reply : Type 0 where
  accepted not_found refused : Reply

abbrev pub one_call : Library → Library
one_call l = record l { calls = l.calls + 1 }

-- `CheckFileOwner` (internal/service/user_file.go)
unfoldable pub owns_file : Shelver → ℕ → ℕ → Library → Bool
owns_file d user file l =
    not (d.db_fails l.calls)
    && any (λ f. f.id == file && f.user_id == user && not f.is_deleted && is_none f.deleted_at)
        l.files

unfoldable pub is_favorite_of : ℕ → ℕ → UserFavorite → Bool
is_favorite_of user file f = f.user_id == user && f.file_id == file

-- `INSERT ... ON CONFLICT DO NOTHING`
unfoldable pub insert_favorite : ℕ → ℕ → List UserFavorite → List UserFavorite
insert_favorite user file fs =
    if any (is_favorite_of user file) fs
    then fs
    else fs ++ record { user_id = user; file_id = file } ∷ []

-- `AddFavorite`
unfoldable pub add_favorite : Shelver → ℕ → ℕ → Library → Reply × Library
unfolding owns_file insert_favorite
add_favorite d user file l =
    if not (owns_file d user file l)
    then (not_found, one_call l)
    else (if d.db_fails (l.calls + 1) then (refused, one_call (one_call l)) else (
      accepted,
      record (one_call (one_call l)) { favorites = insert_favorite user file l.favorites },
    ))

-- `RemoveFavorite`
unfoldable pub remove_favorite : Shelver → ℕ → ℕ → Library → Reply × Library
remove_favorite d user file l = if d.db_fails l.calls then (refused, one_call l) else (
  accepted,
  record (one_call l) { favorites = filter (λ f. not (is_favorite_of user file f)) l.favorites },
)

abbrev pub take_codes : ℕ → Text → Text
take_codes zero s = []
take_codes (suc n) [] = []
take_codes (suc n) (c ∷ s) = c ∷ take_codes n s

-- `normalizeRecentSource`
unfoldable pub normalize_recent_source : Text → Text
normalize_recent_source source =
    let s : Text = to_lower (trim_space source) in
    if text_eq s [] then codes "unknown" else (if ltb 64 (length s) then take_codes 64 s else s)

unfoldable pub is_recent_of : ℕ → ℕ → UserRecent → Bool
is_recent_of user file r = r.user_id == user && r.file_id == file

-- `INSERT ... ON DUPLICATE KEY UPDATE`
unfoldable pub upsert_recent : ℕ → ℕ → Text → ℤ → List UserRecent → List UserRecent
upsert_recent user file source time [] =
    record {
      user_id = user;
      file_id = file;
      source = source;
      access_count = 1;
      last_access_at = time;
    }
    ∷ []
upsert_recent user file source time (r ∷ rs) =
    let rest = upsert_recent user file source time rs in
    if is_recent_of user file r
    then record r { source = source; access_count = r.access_count + 1; last_access_at = time } ∷ rs
    else r ∷ rest

-- `RecordRecentAccess`: an access to a file of someone else is no error and is not recorded.
unfoldable pub record_recent_access : Shelver → ℕ → ℕ → Text → Library → Reply × Library
unfolding owns_file normalize_recent_source upsert_recent
record_recent_access d user file source l =
    let time : ℤ = d.clock (l.calls + 1) in
    if user == 0 || file == 0
    then (accepted, l)
    else (if not (owns_file d user file l)
        then (accepted, one_call l)
        else (if d.db_fails (l.calls + 2) then (refused, record l { calls = l.calls + 3 }) else (
          accepted,
          record l {
            calls = l.calls + 3;
            recents = upsert_recent user file (normalize_recent_source source) time l.recents;
          },
        )))
