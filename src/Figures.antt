-- ===== src/Figures.antt =====
-- The figures of the activities: an event, what it adds to the counters of a day, and the rows of
-- user_activity_daily (internal/activity/event.go and aggregate.go, model/user_activity_daily.go).
use cloud_vault.Base.{
  Bool, List, Option, String, [], false, if◌then◌else◌, ltb, true, ℕ, ◌&&◌, ◌+◌, ◌==◌, ◌∷◌,
}
use cloud_vault.Base.Int.{eq_ℤ, pos_part, ℤ}
use cloud_vault.Rows.{Action, delete, download, other, share, upload}

-- `Event`; `none` is the zero time.
pub record Event : Type 0 where
  pub event_id : String
  pub user_id : ℕ
  pub action : Action
  pub file_id : ℕ
  pub file_bytes : ℤ
  pub occurred_at : Option ℕ

-- `increments`, and the counters of a row
pub record Increments : Type 0 where
  pub upload_count : ℕ
  pub upload_bytes : ℕ
  pub delete_count : ℕ
  pub delete_bytes : ℕ
  pub share_count : ℕ
  pub download_count : ℕ
  pub download_bytes : ℕ

-- model/user_activity_daily.go
pub record DailyRow : Type 0 where
  pub user_id : ℕ
  pub stat_date : ℤ
  pub counts : Increments

-- Whether `validActions` has the action.
abbrev pub is_valid_action : Action → Bool
is_valid_action (other _) = false
is_valid_action _ = true

abbrev pub zeros : Increments
zeros = record {
  upload_count = 0;
  upload_bytes = 0;
  delete_count = 0;
  delete_bytes = 0;
  share_count = 0;
  download_count = 0;
  download_bytes = 0;
}

-- `buildIncrements`: a negative number of bytes counts as 0.
unfoldable pub build_increments : Action → ℤ → Increments
build_increments upload bytes = record zeros { upload_count = 1; upload_bytes = pos_part bytes }
build_increments delete bytes = record zeros { delete_count = 1; delete_bytes = pos_part bytes }
build_increments share bytes = record zeros { share_count = 1 }
build_increments download bytes = record zeros {
  download_count = 1;
  download_bytes = pos_part bytes;
}
build_increments (other _) bytes = zeros

unfoldable pub add_counts : Increments → Increments → Increments
add_counts a b = record {
  upload_count = a.upload_count + b.upload_count;
  upload_bytes = a.upload_bytes + b.upload_bytes;
  delete_count = a.delete_count + b.delete_count;
  delete_bytes = a.delete_bytes + b.delete_bytes;
  share_count = a.share_count + b.share_count;
  download_count = a.download_count + b.download_count;
  download_bytes = a.download_bytes + b.download_bytes;
}

-- 2 ^ 63, beyond the largest BIGINT
abbrev pub int64_end : ℕ
int64_end = 9223372036854775808

-- Whether every counter fits its column; MySQL refuses a statement whose result does not.
unfoldable pub all_fit : Increments → Bool
all_fit c =
    ltb c.upload_count int64_end
    && ltb c.upload_bytes int64_end
    && ltb c.delete_count int64_end
    && ltb c.delete_bytes int64_end
    && ltb c.share_count int64_end
    && ltb c.download_count int64_end
    && ltb c.download_bytes int64_end

unfoldable pub is_row_of : ℕ → ℤ → DailyRow → Bool
is_row_of user date r = r.user_id == user && eq_ℤ r.stat_date date

-- The counters of the row of a user and a date, 0 if there is none: the unique key allows one row.
unfoldable pub counts_of : ℕ → ℤ → List DailyRow → Increments
counts_of user date [] = zeros
counts_of user date (r ∷ rs) =
    let rest = counts_of user date rs in if is_row_of user date r then r.counts else rest

-- The rows after `INSERT ... ON DUPLICATE KEY UPDATE`.
unfoldable pub add_to_row : ℕ → ℤ → Increments → List DailyRow → List DailyRow
add_to_row user date inc [] = record { user_id = user; stat_date = date; counts = inc } ∷ []
add_to_row user date inc (r ∷ rs) =
    let rest = add_to_row user date inc rs in
    if is_row_of user date r then record r { counts = add_counts r.counts inc } ∷ rs else r ∷ rest
