-- ===== src/Tests/Sharing.antt =====
-- Shares at concrete inputs.
use cloud_vault.Base.{
  Bool, [], arith, false, inl, inr, none, refl, some, str_eq, str_eq_iff, true, ℕ, ◌∷◌, ◌≡◌,
}
use cloud_vault.Base.Int.{+ℤ_parts, pos, ℤ, ◌+ℤ◌, ◌-ℤ◌}
use cloud_vault.Base.Text.{codes}
use cloud_vault.Downloads.{SentDownload}
use cloud_vault.Links.{ShareRequest}
use cloud_vault.Shares.{
  Backend, Counter, FileShare, cache_share, cache_until, check_cached, check_file_owner,
  check_share, create_share, days_long, insert_share, is_over, new_share, replace_share,
}
use cloud_vault.Shares.Access.{IsAdmitted, IsPrompt}
use cloud_vault.Shares.History.{Reached, check_share-admits, no_keys, with_share}
use cloud_vault.Shares.Roundtrip.{IsAnswer, create_share-check}
use cloud_vault.Tests.Worlds.{report, report_file}

abbrev pub backend : Backend
backend = record {
  db_fails = λ n. false;
  redis_fails = λ n. false;
  clock = λ n. pos n;
  token = λ n. "token";
  rounded = λ t. t;
  extract_code = λ n. "AB23";
  same_text = λ a b. str_eq a b;
}

abbrev pub counter : Counter
counter = record {
  calls = 0;
  files = report_file ∷ [];
  shares = [];
  next_share = 1;
  cached = λ k. none;
  emitted = [];
  visits = [];
}

abbrev made : Counter
made = (create_share backend 7 1 (pos 1) true counter).1

abbrev made_row : FileShare
made_row = record {
  id = 1;
  share_id = "token";
  file_id = 1;
  user_id = 7;
  need_code = true;
  extract_code = "AB23";
  expire_at = some (pos 86400000000002);
  status = 0;
}

create_share-check_example :
    IsAnswer backend
      (λ x. (str_eq_iff x x).1 refl)
      made_row
      (check_share backend "token" "AB23" made).0
unfolding create_share replace_share insert_share cache_share cache_until new_share days_long
    check_file_owner ◌+ℤ◌ ◌-ℤ◌
create_share-check_example =
    create_share-check backend (λ x. (str_eq_iff x x).1 refl) 7 1 (pos 1) true counter made made_row
      (λ k. refl) refl refl refl refl

made-Reached : Reached backend made
made-Reached = with_share 7 1 (pos 1) true counter (omega arith) (no_keys counter (λ k. refl))

-- One unit of time lies between two calls.
backend-IsPrompt : IsPrompt 1 backend
backend-IsPrompt n = omega (arith, +ℤ_parts (pos n) (pos 1))

check_share-admits_example : IsAdmitted 1 (pos 5) "AB23" made_row
unfolding create_share replace_share insert_share cache_share cache_until new_share days_long
    check_file_owner ◌+ℤ◌ ◌-ℤ◌ check_share check_cached
check_share-admits_example =
    check_share-admits backend 1 "token" "AB23" made made_row (λ m n h. omega (arith, h))
      backend-IsPrompt (omega arith) made-Reached refl

-- A share for so many days that 64 bits of nanoseconds go round: its end has passed at once, but its
-- key never expires, and the share is given away.
endless :
    let c : Counter = (create_share backend 7 1 (pos 106752) false counter).1 in
    (elim (check_share backend "token" "" c).0 [
      | inl e ↦ false
      | inr s ↦ is_over (backend.clock c.calls) s.expire_at
    ])
    ≡ true
unfolding create_share replace_share insert_share cache_share cache_until new_share days_long
    check_file_owner ◌+ℤ◌ ◌-ℤ◌ check_share check_cached
endless = refl

-- A download by the link of this share
abbrev link : ShareRequest
link = record {
  share_id = "token";
  query_code = " AB23";
  form_code = "";
  client_ip = codes "a";
  user_agent = [];
  referer = [];
}

abbrev sent : SentDownload
sent = record { file = report_file; object = report; name = codes "report.pdf" }

abbrev stream : ℕ → ℤ × Bool
stream n = (pos 10, true)
