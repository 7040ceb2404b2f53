-- ===== src/Activity/Summary.antt =====
-- `GetSummary` of internal/activity/aggregate.go: the daily figures of the last days.
use cloud_vault.Activity.{DailyHash, Ledger, Meter, count_call, hash_at}
use cloud_vault.Base.{
  Bool, List, Option, [], arith, false, filter, if◌then◌else◌, is_none, none, not, refl, some, suc,
  true, zero, ℕ, ◌&&◌, ◌+◌, ◌-◌, ◌==◌, ◌||◌, ◌∷◌, ◌≡◌, ◌≤◌,
}
use cloud_vault.Base.Int.{leb_ℤ, ltb_ℤ, pos, pos_part, ℤ, ◌+ℤ◌, ◌-ℤ◌}
use cloud_vault.Base.Text.{text_eq}
use cloud_vault.Figures.{DailyRow, Increments, zeros}

-- `DailySummary`
pub record DailySummary : Type 0 where
  pub date : ℤ
  pub counts : Increments

-- `parseInt64` of a field of a hash: `none` is a field that is missing or no number.
abbrev pub parse_int64 : Option ℕ → ℕ → ℕ
parse_int64 none fallback = fallback
parse_int64 (some value) fallback = value

abbrev pub is_empty_hash : DailyHash → Bool
is_empty_hash h =
    is_none h.upload_count
    && is_none h.upload_bytes
    && is_none h.delete_count
    && is_none h.delete_bytes
    && is_none h.share_count
    && is_none h.download_count
    && is_none h.download_bytes

unfoldable pub overlay : DailyHash → Increments → Increments
overlay h c = record {
  upload_count = parse_int64 h.upload_count c.upload_count;
  upload_bytes = parse_int64 h.upload_bytes c.upload_bytes;
  delete_count = parse_int64 h.delete_count c.delete_count;
  delete_bytes = parse_int64 h.delete_bytes c.delete_bytes;
  share_count = parse_int64 h.share_count c.share_count;
  download_count = parse_int64 h.download_count c.download_count;
  download_bytes = parse_int64 h.download_bytes c.download_bytes;
}

-- Whether a row is entered in `byDate` under the text of a day
unfoldable pub is_entered : Meter → List DailyRow → ℤ → Bool
is_entered m [] day = false
is_entered m (r ∷ rows) day =
    text_eq (m.scanned_date r.stat_date) (m.date_text day) || is_entered m rows day

-- What `byDate` has under the text of a day: the last row that was entered, or zeros
unfoldable pub counts_by_date : Meter → List DailyRow → ℤ → Increments
unfolding is_entered
counts_by_date m [] day = zeros
counts_by_date m (r ∷ rows) day =
    let later : Increments = counts_by_date m rows day in
    if is_entered m rows day
    then later
    else (if text_eq (m.scanned_date r.stat_date) (m.date_text day) then r.counts else zeros)

-- One day of the summary: the row, with the figures of Redis over it where there are any.
unfoldable pub day_summary : Meter → ℕ → List DailyRow → ℤ → Ledger → DailySummary × Ledger
unfolding counts_by_date
day_summary m user rows day l =
    let row : Increments = counts_by_date m rows day in
    let h : DailyHash = hash_at (m.clock l.calls) (l.hashes user day) in
    if not m.redis_ready then (record { date = day; counts = row }, l) else (
      record {
        date = day;
        counts = if m.redis_fails l.calls || is_empty_hash h then row else overlay h row;
      },
      count_call l,
    )

-- The loop of `GetSummary`, for `n` days from `day` on
unfoldable pub summary_from :
    Meter → ℕ → List DailyRow → ℕ → ℤ → Ledger → List DailySummary × Ledger
summary_from m user rows zero day l = ([], l)
summary_from m user rows (suc n) day l =
    let (item, l') = day_summary m user rows day l in
    let (items, l'') = summary_from m user rows n (day +ℤ pos 1) l' in (item ∷ items, l'')

-- The number of days that a request asks for
unfoldable pub clamp_days : ℤ → ℕ
clamp_days days =
    let asked : ℤ = if leb_ℤ days (pos 0) then pos 7 else days in
    pos_part (if ltb_ℤ (pos 90) asked then pos 90 else asked)

unfoldable pub is_between : ℕ → ℤ → ℤ → DailyRow → Bool
is_between user start today r =
    r.user_id == user && leb_ℤ start r.stat_date && leb_ℤ r.stat_date today

-- `GetSummary`; `none` is the error of the query.
unfoldable pub get_summary : Meter → ℕ → ℤ → Ledger → Option (List DailySummary) × Ledger
get_summary m user days l =
    let today : ℤ = m.day_of (m.clock l.calls) in
    let start : ℤ = today -ℤ pos (clamp_days days - 1) in
    let rows : List DailyRow = filter (is_between user start today) l.daily in
    let (items, l') =
      summary_from m user rows (clamp_days days) start (count_call (count_call l)) in
    if m.db_fails (l.calls + 1) then (none, count_call (count_call l)) else (some items, l')

-- Days with nothing
abbrev zeros_from : ℕ → ℤ → List DailySummary
zeros_from zero day = []
zeros_from (suc n) day = record { date = day; counts = zeros } ∷ zeros_from n (day +ℤ pos 1)

clamp_days-range : (days : ℤ) → (1 ≤ clamp_days days) × (clamp_days days ≤ 90)
unfolding clamp_days
clamp_days-range days = ground arith

module _ (m : Meter) (apart : (a b : ℤ) → text_eq (m.scanned_date a) (m.date_text b) ≡ false) where
  counts_by_date-zeros : (rows : List DailyRow) (day : ℤ) → counts_by_date m rows day ≡ zeros
  unfolding counts_by_date
  counts_by_date-zeros [] day = refl
  counts_by_date-zeros (r ∷ rows) day =
      rw (apart r.stat_date day, counts_by_date-zeros rows day) (either (is_entered m rows day))
    where
      either : (b : Bool) → (if b then zeros else zeros) ≡ zeros
      either true = refl
      either false = refl

  summary_from-zeros :
      (user : ℕ) (rows : List DailyRow) (n : ℕ) (day : ℤ) (l : Ledger)
      → m.redis_ready ≡ false
      → (summary_from m user rows n day l).0 ≡ zeros_from n day
  unfolding summary_from day_summary
  summary_from-zeros user rows zero day l r = refl
  summary_from-zeros user rows (suc n) day l r =
      rw (r, counts_by_date-zeros rows day)
        (rw (summary_from-zeros user rows n (day +ℤ pos 1) l r) refl)

-- Without Redis, and when the query succeeds, a summary shows no activity at all on each of its days,
-- whatever the rows of the user say, if the driver's text of a DATE is never the text by which the
-- code looks a day up; and it has between 1 and 90 days, the last of them today.
pub get_summary-zeros :
    (m : Meter) (user : ℕ) (days : ℤ) (l : Ledger)
    → ((a b : ℤ) → text_eq (m.scanned_date a) (m.date_text b) ≡ false)
    → m.redis_ready ≡ false
    → m.db_fails (l.calls + 1) ≡ false
    → (1 ≤ clamp_days days)
      × (clamp_days days ≤ 90)
      × ((get_summary m user days l).0
          ≡ some (
              zeros_from
                (clamp_days days)
                (m.day_of (m.clock l.calls) -ℤ pos (clamp_days days - 1))))
unfolding get_summary
get_summary-zeros m user days l apart r d =
    let range = clamp_days-range days in
    (range.0, range.1, rw (d, summary_from-zeros m apart user _ (clamp_days days) _ _ r) refl)
