-- ===== src/Tests/Visits.antt =====
-- The statistics of visits at a concrete log.
use cloud_vault.Base.{[], refl, str_eq, ℕ, ◌∷◌, ◌≡◌}
use cloud_vault.Base.Int.{pos, ℤ}
use cloud_vault.Base.Text.{codes, text_eq}
use cloud_vault.Shares.{ShareAccessLog}
use cloud_vault.Tests.Sharing.{backend, counter}
use cloud_vault.Visits.{get_share_access_stats}
use cloud_vault.Visits.Own.{get_share_access_stats-own}

abbrev visit : ℕ → ℤ → ShareAccessLog
visit owner time = record {
  owner_user_id = owner;
  file_id = 1;
  share_id = "token";
  visitor_ip = codes "10.0.0.1";
  source = codes "direct";
  referer = [];
  user_agent = [];
  accessed_at = time;
}

get_share_access_stats-own_example :
    get_share_access_stats text_eq
      (λ a b. str_eq a.0 b.0)
      (λ t. t)
      (λ now back. now)
      (λ n. visit 7 (pos 3) ∷ visit 8 (pos 4) ∷ visit 7 (pos 9) ∷ [])
      backend
      7
      (pos 7)
      counter
    ≡ get_share_access_stats text_eq
        (λ a b. str_eq a.0 b.0)
        (λ t. t)
        (λ now back. now)
        (λ n. visit 7 (pos 3) ∷ visit 7 (pos 9) ∷ [])
        backend
        7
        (pos 7)
        counter
get_share_access_stats-own_example =
    get_share_access_stats-own text_eq (λ a b. str_eq a.0 b.0) (λ t. t) (λ now back. now)
      (λ n. visit 7 (pos 3) ∷ visit 8 (pos 4) ∷ visit 7 (pos 9) ∷ [])
      (λ n. visit 7 (pos 3) ∷ visit 7 (pos 9) ∷ []) backend 7 (pos 7) counter (λ n. refl)
