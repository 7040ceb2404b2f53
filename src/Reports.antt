-- ===== src/Reports.antt =====
-- The handlers of the statistics: `GetUserActivitySummary` of internal/handler/activity.go, and
-- `GetShareAccessStats` with `parsePositiveInt` of internal/handler/share_analytics.go.
--
-- `atoi` is `strconv.Atoi`. A total is a sum of numbers without bound.
use cloud_vault.Accounts.{Answer, rejected, served}
use cloud_vault.Activity.{Ledger, Meter}
use cloud_vault.Activity.Summary.{DailySummary, get_summary}
use cloud_vault.Base.{Bool, List, Option, String, [], if◌then◌else◌, none, some, ℕ, ◌∷◌}
use cloud_vault.Base.Int.{leb_ℤ, pos, ℤ}
use cloud_vault.Base.Text.{Text, text_eq, trim_space}
use cloud_vault.Figures.{Increments, add_counts, zeros}
use cloud_vault.Shares.{Backend, Counter, ShareAccessLog}
use cloud_vault.Visits.{ShareAccessStats, get_share_access_stats}
use cloud_vault.World.{query}

-- The totals of a summary
unfoldable pub total_of : List DailySummary → Increments → Increments
unfolding add_counts
total_of [] total = total
total_of (item ∷ items) total = total_of items (add_counts total item.counts)

pub record ActivityReport : Type 0 where
  pub days : ℤ
  pub items : List DailySummary
  pub total : Increments

module _ (atoi : Text → Option ℤ) where
  -- The days that are asked for: `none` is an answer with status 400.
  unfoldable pub asked_days : Text → Option ℤ
  asked_days query =
      let raw = trim_space query in
      if text_eq raw []
      then some (pos 7)
      else elim (atoi raw) [ none ↦ none | some n ↦ if leb_ℤ n (pos 0) then none else some n ]

  -- `GetUserActivitySummary`
  unfoldable pub get_user_activity_summary :
      Meter → ℕ → Text → Ledger → Answer ActivityReport × Ledger
  unfolding asked_days get_summary total_of
  get_user_activity_summary m user query l = elim (asked_days query) [
    | none ↦ (rejected 400 "invalid days", l)
    | some days ↦
        (let (listed, l') = get_summary m user days l in
          elim listed [
            | none ↦ (rejected 500 "", l')
            | some items ↦
                (served (record { days = days; items = items; total = total_of items zeros }), l')
          ])
  ]

  -- `parsePositiveInt`
  unfoldable pub parse_positive_int : Text → ℤ → ℤ
  parse_positive_int query fallback =
      let raw = trim_space query in
      if text_eq raw []
      then fallback
      else elim (atoi raw) [ none ↦ fallback | some n ↦ if leb_ℤ n (pos 0) then fallback else n ]

  -- `GetShareAccessStats`, the handler
  unfoldable pub get_share_access_report :
      (Text → Text → Bool)
      → (String × ℕ → String × ℕ → Bool)
      → (ℤ → ℤ)
      → (ℤ → ℕ → ℤ)
      → (ℕ → List ShareAccessLog)
      → Backend
      → ℕ
      → Text
      → Counter
      → Answer ShareAccessStats × Counter
  unfolding parse_positive_int get_share_access_stats
  get_share_access_report same same_share day_of start_of log_at b owner query c =
      let days = parse_positive_int query (pos 30) in
      let (found, c') =
        get_share_access_stats same same_share day_of start_of log_at b owner days c in
      elim found [ none ↦ (rejected 500 "", c') | some stats ↦ (served stats, c') ]
