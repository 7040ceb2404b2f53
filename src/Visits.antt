-- ===== src/Visits.antt =====
-- The statistics of visits to shares: `GetShareAccessStats` of internal/service/share_access.go.
--
-- The statements are written out as what they compute: GROUP BY as a fold over the rows, in the order
-- in which the groups appear first, and ORDER BY as a sort that keeps this order among equals, which
-- SQL leaves open. `day_of` is `DATE`; `start_of` is the start of the day some days before a moment;
-- `same` is the comparison of texts in MySQL. Names of files are left out.
pub mod Own
use cloud_vault.Base.{
  Bool, List, Option, String, [], filter, if◌then◌else◌, length, ltb, map, none, some, suc, zero, ℕ,
  ◌&&◌, ◌+◌, ◌-◌, ◌==◌, ◌||◌, ◌∷◌,
}
use cloud_vault.Base.Int.{eq_ℤ, leb_ℤ, ltb_ℤ, pos, pos_part, ℤ}
use cloud_vault.Base.Text.{Text}
use cloud_vault.Shares.{Backend, Counter, ShareAccessLog}

pub record ShareAccessStats : Type 0 where
  pub days : ℕ
  pub total_visits : ℕ
  pub unique_ips : ℕ
  pub by_source : List (Text × ℕ)
  pub daily : List (ℤ × ℕ)
  pub top_shares : List ((String × ℕ) × ℕ)

-- The bounds of `days`: 7 for none, at most 180
abbrev pub stat_days : ℤ → ℕ
stat_days days =
    if leb_ℤ days (pos 0) then 7 else (if ltb_ℤ (pos 180) days then 180 else pos_part days)

module _ {A : Type 0} (eq : A → A → Bool) where
  -- One more row of a group
  unfoldable pub count_row : A → List (A × ℕ) → List (A × ℕ)
  count_row key [] = (key, 1) ∷ []
  count_row key ((k, n) ∷ groups) =
      let rest = count_row key groups in if eq k key then (k, n + 1) ∷ groups else (k, n) ∷ rest

  -- `GROUP BY` with `COUNT(1)`
  unfoldable pub group_counts : List A → List (A × ℕ) → List (A × ℕ)
  group_counts [] groups = groups
  group_counts (key ∷ keys) groups = group_counts keys (count_row key groups)

module _ {A : Type 0} (before : A → A → Bool) where
  unfoldable pub insert_row : A → List A → List A
  insert_row row [] = row ∷ []
  insert_row row (r ∷ rows) =
      let rest = insert_row row rows in if before r row then r ∷ rest else row ∷ r ∷ rows

  -- `ORDER BY`
  unfoldable pub order_rows : List A → List A
  order_rows [] = []
  order_rows (row ∷ rows) = insert_row row (order_rows rows)

-- `count DESC`
abbrev pub more_often : {A : Type 0} → A × ℕ → A × ℕ → Bool
more_often a b = ltb b.1 a.1

abbrev pub take_rows {ℓ} : {A : Type ℓ} → ℕ → List A → List A
take_rows zero rows = []
take_rows (suc n) [] = []
take_rows (suc n) (row ∷ rows) = row ∷ take_rows n rows

abbrev pub is_visit_of : ℕ → ℤ → ShareAccessLog → Bool
is_visit_of owner start v = v.owner_user_id == owner && leb_ℤ start v.accessed_at

abbrev pub share_of : ShareAccessLog → String × ℕ
share_of v = (v.share_id, v.file_id)

module _ (same : Text → Text → Bool) (same_share : String × ℕ → String × ℕ → Bool) (day_of : ℤ → ℤ)
    (start_of : ℤ → ℕ → ℤ) where
  -- The figures, of the rows that each of the five statements finds
  unfoldable pub stats_of : ℕ → (ℕ → List ShareAccessLog) → ShareAccessStats
  unfolding group_counts order_rows
  stats_of days rows = record {
    days = days;
    total_visits = length (rows 0);
    unique_ips = length (group_counts same (map (λ v. v.visitor_ip) (rows 1)) []);
    by_source = order_rows more_often (group_counts same (map (λ v. v.source) (rows 2)) []);
    daily =
        order_rows (λ a b. ltb_ℤ a.0 b.0)
          (group_counts eq_ℤ (map (λ v. day_of v.accessed_at) (rows 3)) []);
    top_shares =
        take_rows 10 (order_rows more_often (group_counts same_share (map share_of (rows 4)) []));
  }

  -- `GetShareAccessStats`: `none` if one of its five statements fails, which then is the last; the
  -- statements that it leaves out have numbers here, too. The statements stand in no transaction:
  -- `log_at` is the log as the statement of a number finds it.
  unfoldable pub get_share_access_stats :
      (ℕ → List ShareAccessLog) → Backend → ℕ → ℤ → Counter → Option ShareAccessStats × Counter
  unfolding stats_of
  get_share_access_stats log_at b owner days c =
      let start : ℤ = start_of (b.clock c.calls) (stat_days days - 1) in
      let rows : ℕ → List ShareAccessLog =
        λ n. filter (is_visit_of owner start) (log_at (c.calls + n)) in
      if b.db_fails c.calls
        || b.db_fails (c.calls + 1)
        || b.db_fails (c.calls + 2)
        || b.db_fails (c.calls + 3)
        || b.db_fails (c.calls + 4)
      then (none, record c { calls = c.calls + 5 })
      else (some (stats_of (stat_days days) rows), record c { calls = c.calls + 5 })
