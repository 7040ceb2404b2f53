-- ===== src/Visits/Own.antt =====
-- The statistics of visits are those of one owner of shares.
use cloud_vault.Base.{
  Bool, Bool-cases, List, Option, String, [], ap, filter, fun_ext, if◌then◌else◌, inl, inr, none,
  refl, some, sym, ℕ, ◌&&◌, ◌+◌, ◌-◌, ◌==◌, ◌||◌, ◌∙◌, ◌∷◌, ◌≡◌,
}
use cloud_vault.Base.Int.{leb_ℤ, ℤ}
use cloud_vault.Base.Text.{Text}
use cloud_vault.Shares.{Backend, Counter, ShareAccessLog}
use cloud_vault.Visits.{ShareAccessStats, get_share_access_stats, is_visit_of, stat_days, stats_of}

-- The visits to the shares of an owner
abbrev pub own : ℕ → List ShareAccessLog → List ShareAccessLog
own owner = filter (λ v. v.owner_user_id == owner)

filter-both :
    (p q : ShareAccessLog → Bool) (log : List ShareAccessLog)
    → filter (λ v. p v && q v) (filter p log) ≡ filter (λ v. p v && q v) log
filter-both p q [] = refl
filter-both p q (v ∷ log) = elim (Bool-cases (p v)) [
  | inl its ↦ rw (its, its, filter-both p q log) refl
  | inr foreign ↦ rw (foreign, filter-both p q log) refl
]

is_visit_of-own :
    (owner : ℕ) (start : ℤ) (log : List ShareAccessLog)
    → filter (is_visit_of owner start) (own owner log) ≡ filter (is_visit_of owner start) log
is_visit_of-own owner start =
    filter-both (λ v. v.owner_user_id == owner) (λ v. leb_ℤ start v.accessed_at)

module _ (same : Text → Text → Bool) (same_share : String × ℕ → String × ℕ → Bool) (day_of : ℤ → ℤ)
    (start_of : ℤ → ℕ → ℤ) where
  -- The statistics that an owner is sent, or the error, depend on the visits to the shares of this
  -- owner alone: they are the same for two logs that have the same visits to them, in the same
  -- order, at each statement, whatever else was visited.
  pub get_share_access_stats-own :
      (log_at other_at : ℕ → List ShareAccessLog) (b : Backend) (owner : ℕ) (days : ℤ) (c : Counter)
      → ((n : ℕ) → own owner (log_at n) ≡ own owner (other_at n))
      → get_share_access_stats same same_share day_of start_of log_at b owner days c
        ≡ get_share_access_stats same same_share day_of start_of other_at b owner days c
  unfolding get_share_access_stats
  get_share_access_stats-own log_at other_at b owner days c alike =
      let start : ℤ = start_of (b.clock c.calls) (stat_days days - 1) in
      ap
        (λ (rows : ℕ → List ShareAccessLog).
          let out : Option ShareAccessStats × Counter =
            if b.db_fails c.calls
              || b.db_fails (c.calls + 1)
              || b.db_fails (c.calls + 2)
              || b.db_fails (c.calls + 3)
              || b.db_fails (c.calls + 4)
            then (none, record c { calls = c.calls + 5 })
            else (
              some (stats_of same same_share day_of start_of (stat_days days) rows),
              record c { calls = c.calls + 5 },
            ) in
          out)
        (fun_ext (λ n.
          sym (is_visit_of-own owner start (log_at (c.calls + n)))
          ∙ ap (filter (is_visit_of owner start)) (alike (c.calls + n))
          ∙ is_visit_of-own owner start (other_at (c.calls + n))))
