-- ===== src/Tests/Statistics.antt =====
-- The statistics of activities at concrete inputs: an upload that is delivered twice while the
-- first statement fails, then a delivery that is no event.
use cloud_vault.Activity.{
  Ledger, Meter, apply_event, claim_event, emit_event, finish_event, handle_activity_message,
  increase_daily_hash, is_countable, publish, release_event, upsert_daily_row,
}
use cloud_vault.Activity.Counting.{Shows, run_tally, run_worker, run_worker-Shows}
use cloud_vault.Activity.Failure.{LeavesAlone, emit_event-error}
use cloud_vault.Activity.Summary.{clamp_days, get_summary, get_summary-zeros}
use cloud_vault.Base.{
  List, Option, [], arith, false, none, refl, some, true, ◌+◌, ◌==◌, ◌∷◌, ◌≡◌, ◌≤◌,
}
use cloud_vault.Base.Int.{pos, ◌+ℤ◌, ◌-ℤ◌}
use cloud_vault.Base.Text.{codes}
use cloud_vault.Figures.{
  Event, add_counts, add_to_row, all_fit, build_increments, counts_of, is_row_of, zeros,
}
use cloud_vault.Rows.{upload}

abbrev meter : Meter
meter = record {
  db_fails = λ n. n == 2;
  redis_ready = true;
  redis_fails = λ n. false;
  publish_fails = λ n. false;
  clock = λ n. 1000;
  token = λ n. "token";
  day_of = λ t. pos 3;
  date_text = λ d. codes "2026-01-02";
  scanned_date = λ d. codes "2026-01-02T00:00:00Z";
}

abbrev upload_event : Event
upload_event = record {
  event_id = "a1";
  user_id = 7;
  action = upload;
  file_id = 1;
  file_bytes = pos 10;
  occurred_at = some 900;
}

abbrev deliveries : List (Option Event)
deliveries = some upload_event ∷ some upload_event ∷ none ∷ some upload_event ∷ []

abbrev ledger : Ledger
ledger = record { calls = 0; daily = []; seen = λ k. none; hashes = λ u d. none; queue = [] }

ledger-Shows : Shows meter [] ledger
unfolding counts_of
ledger-Shows = record { totals = λ user date. refl; marks = λ id. refl; distinct = tt }

run_worker-Shows_example :
    Shows meter (run_tally meter deliveries ledger []) (run_worker meter deliveries ledger)
run_worker-Shows_example =
    run_worker-Shows meter deliveries [] ledger
      (record { ready = refl; answers = λ n. refl; unexpired = λ n k. omega arith })
      (refl, (refl, (tt, (refl, tt)))) ledger-Shows

-- The upload is counted once.
counted_once : (counts_of 7 (pos 3) (run_worker meter deliveries ledger).daily).upload_bytes ≡ 10
unfolding run_worker counts_of handle_activity_message apply_event is_countable finish_event
    claim_event upsert_daily_row release_event all_fit add_counts build_increments
    increase_daily_hash add_to_row is_row_of
counted_once = refl

abbrev offline : Meter
offline = record meter { redis_ready = false }

-- A row of today is there, and is not shown.
abbrev active : Ledger
active = record ledger {
  daily =
      record { user_id = 7; stat_date = pos 3; counts = record zeros { upload_count = 1 } } ∷ [];
}

get_summary-zeros_example :
    (1 ≤ clamp_days (pos 2))
    × (clamp_days (pos 2) ≤ 90)
    × ((get_summary offline 7 (pos 2) active).0
        ≡ some (
            record { date = pos 2; counts = zeros } ∷ record { date = pos 3; counts = zeros } ∷ []))
unfolding clamp_days ◌-ℤ◌ ◌+ℤ◌
get_summary-zeros_example = get_summary-zeros offline 7 (pos 2) active (λ a b. refl) refl refl

-- Neither RabbitMQ nor MySQL answers.
abbrev broken : Meter
broken = record meter { db_fails = λ n. true; publish_fails = λ n. true }

emit_event-error_example :
    LeavesAlone broken
      (broken.token ledger.calls)
      (ledger.calls + 5)
      ledger
      (emit_event broken 7 upload 1 (pos 10) ledger).1
unfolding emit_event publish apply_event finish_event upsert_daily_row is_countable claim_event
emit_event-error_example = emit_event-error broken 7 upload 1 (pos 10) ledger refl
