-- ===== src/Activity.antt =====
-- Counting activities: internal/activity/event.go and aggregate.go, on the figures of Figures, and
-- `handleActivityMessage` of internal/worker/activity_worker.go.
--
-- `Ledger` holds the rows of user_activity_daily, the Redis keys that mark an event as counted, the
-- daily hashes in Redis with the moment at which they expire, and the queue. `Meter` says what
-- MySQL, Redis, RabbitMQ and the clock answer, each call by its number. A date is the number of its
-- day: `day_of` is `Format("2006-01-02")`, and its texts sort as the days do. The pointers that the
-- functions test for nil are never nil in their callers.
pub mod Counting
pub mod Failure
pub mod Summary
pub mod Totals
use cloud_vault.Base.{
  Bool, List, Option, String, [], false, if◌then◌else◌, ltb, none, not, some, str_eq, true, ℕ, ◌&&◌,
  ◌++◌, ◌+◌, ◌==◌, ◌||◌, ◌∷◌,
}
use cloud_vault.Base.Int.{eq_ℤ, ℤ}
use cloud_vault.Base.Text.{Text}
use cloud_vault.Download.{Verdict, ack, requeue}
use cloud_vault.Figures.{
  DailyRow, Event, Increments, add_counts, add_to_row, all_fit, build_increments, counts_of,
  int64_end, is_valid_action,
}
use cloud_vault.Rows.{Action}

-- A daily hash in Redis: for each field the number that its text stands for, if it is there.
pub record DailyHash : Type 0 where
  pub upload_count : Option ℕ
  pub upload_bytes : Option ℕ
  pub delete_count : Option ℕ
  pub delete_bytes : Option ℕ
  pub share_count : Option ℕ
  pub download_count : Option ℕ
  pub download_bytes : Option ℕ

pub record Ledger : Type 0 where
  pub calls : ℕ
  pub daily : List DailyRow
  -- the keys "activity:event:dedup:<id>", each with the moment at which it expires
  pub seen : String → Option ℕ
  -- the hashes "activity:daily:<user>:<date>", each with the moment at which it expires
  pub hashes : ℕ → ℤ → Option (DailyHash × ℕ)
  -- QueueActivity
  pub queue : List Event

pub record Meter : Type 0 where
  pub db_fails : ℕ → Bool
  -- `repo.Redis != nil`
  pub redis_ready : Bool
  pub redis_fails : ℕ → Bool
  pub publish_fails : ℕ → Bool
  pub clock : ℕ → ℕ
  pub token : ℕ → String
  pub day_of : ℕ → ℤ
  -- the text of a day by the layout "2006-01-02"
  pub date_text : ℤ → Text
  -- the text that the driver of MySQL gives for a DATE, to a field that is a string
  pub scanned_date : ℤ → Text

abbrev pub count_call : Ledger → Ledger
count_call l = record l { calls = l.calls + 1 }

-- `upsertDailyRow`: whether it returned nil.
unfoldable pub upsert_daily_row : Meter → ℕ → ℤ → Increments → Ledger → Bool × Ledger
upsert_daily_row m user date inc l =
    if m.db_fails l.calls || not (all_fit (add_counts (counts_of user date l.daily) inc))
    then (false, count_call l)
    else (true, record (count_call l) { daily = add_to_row user date inc l.daily })

abbrev pub event_dedup_ttl : ℕ
event_dedup_ttl = 86400

abbrev pub daily_redis_ttl : ℕ
daily_redis_ttl = 1209600

abbrev pub is_live : ℕ → Option ℕ → Bool
is_live now none = false
is_live now (some expiry) = ltb now expiry

abbrev pub put_seen : String → Option ℕ → (String → Option ℕ) → String → Option ℕ
put_seen id expiry seen k = if str_eq id k then expiry else seen k

-- What became of the key that marks an event: there is none, since Redis is missing or failed or
-- the event has no id; it was set; it was there.
pub data Claim : Type 0 where
  unmarked marked duplicate : Claim

-- `SetNX` of the key of an event
unfoldable pub claim_event : Meter → String → Ledger → Claim × Ledger
claim_event m id l =
    if m.redis_ready && not (str_eq id "")
    then (if m.redis_fails l.calls
        then (unmarked, count_call l)
        else (if is_live (m.clock l.calls) (l.seen id) then (duplicate, count_call l) else (
          marked,
          record (count_call l) {
            seen = put_seen id (some (m.clock l.calls + event_dedup_ttl)) l.seen;
          },
        )))
    else (unmarked, l)

-- `Del` of the key, if this call has set it
unfoldable pub release_event : Meter → Claim → String → Ledger → Ledger
release_event m marked id l =
    if m.redis_fails l.calls
    then count_call l
    else record (count_call l) { seen = put_seen id none l.seen }
release_event m _ id l = l

-- `HIncrBy` of one field; Redis refuses a result beyond 64 bits.
abbrev pub increase_field : Option ℕ → ℕ → Option ℕ
increase_field none n = some n
increase_field (some v) n = if ltb (v + n) int64_end then some (v + n) else some v

unfoldable pub increase_hash : DailyHash → Increments → DailyHash
increase_hash h inc = record {
  upload_count = increase_field h.upload_count inc.upload_count;
  upload_bytes = increase_field h.upload_bytes inc.upload_bytes;
  delete_count = increase_field h.delete_count inc.delete_count;
  delete_bytes = increase_field h.delete_bytes inc.delete_bytes;
  share_count = increase_field h.share_count inc.share_count;
  download_count = increase_field h.download_count inc.download_count;
  download_bytes = increase_field h.download_bytes inc.download_bytes;
}

abbrev pub empty_hash : DailyHash
empty_hash = record {
  upload_count = none;
  upload_bytes = none;
  delete_count = none;
  delete_bytes = none;
  share_count = none;
  download_count = none;
  download_bytes = none;
}

-- `HGetAll`: a hash that has expired is empty.
abbrev pub hash_at : ℕ → Option (DailyHash × ℕ) → DailyHash
hash_at now none = empty_hash
hash_at now (some (h, expiry)) = if ltb now expiry then h else empty_hash

-- The pipeline at the end of `ApplyEvent`, one transaction
unfoldable pub increase_daily_hash : Meter → ℕ → ℤ → Increments → Ledger → Ledger
increase_daily_hash m user date inc l =
    let now : ℕ = m.clock l.calls in
    if not m.redis_ready
    then l
    else (if m.redis_fails l.calls then count_call l else record (count_call l) {
      hashes = λ u d.
          if u == user && eq_ℤ d date
          then some (increase_hash (hash_at now (l.hashes u d)) inc, now + daily_redis_ttl)
          else l.hashes u d;
    })

unfoldable pub finish_event : Meter → Claim → Event → ℕ → Ledger → Bool × Ledger
finish_event m duplicate e time l = (true, l)
finish_event m c e time l =
    let inc : Increments = build_increments e.action e.file_bytes in
    let (done, l') = upsert_daily_row m e.user_id (m.day_of time) inc l in
    if done
    then (true, increase_daily_hash m e.user_id (m.day_of time) inc l')
    else (false, release_event m c e.event_id l')

-- `event.OccurredAt`, or the present if it is zero
abbrev pub time_of : Meter → Event → Ledger → ℕ
time_of m e l = elim e.occurred_at [ some t ↦ t | none ↦ m.clock l.calls ]

unfoldable pub is_countable : Event → Bool
is_countable e = not (e.user_id == 0) && is_valid_action e.action

-- `ApplyEvent`: whether it returned nil.
unfoldable pub apply_event : Meter → Event → Ledger → Bool × Ledger
apply_event m e l =
    let (c, l') = claim_event m e.event_id (count_call l) in
    if is_countable e then finish_event m c e (time_of m e l) l' else (true, l)

-- `Publish`: whether it returned nil. The message carries the event with its id and time filled in.
unfoldable pub publish : Meter → Event → Ledger → Bool × Ledger
publish m e l =
    let id : String = if str_eq e.event_id "" then m.token l.calls else e.event_id in
    let sent : Event = record e { event_id = id; occurred_at = some (time_of m e l) } in
    if not (is_countable e)
    then (false, l)
    else (if m.publish_fails l.calls
        then (false, count_call l)
        else (true, record (count_call l) { queue = l.queue ++ sent ∷ [] }))

-- `Emit`: whether it returned nil.
unfoldable pub emit_event : Meter → ℕ → Action → ℕ → ℤ → Ledger → Bool × Ledger
emit_event m user action file bytes l =
    let e : Event = record {
      event_id = m.token l.calls;
      user_id = user;
      action = action;
      file_id = file;
      file_bytes = bytes;
      occurred_at = some (m.clock l.calls);
    } in
    let (done, l') = publish m e (count_call l) in if done then (true, l') else apply_event m e l'

-- `handleActivityMessage`: `none` is a body that is no event.
unfoldable pub handle_activity_message : Meter → Option Event → Ledger → Verdict × Ledger
handle_activity_message m none l = (ack, l)
handle_activity_message m (some e) l =
    let (done, l') = apply_event m e l in (if done then ack else requeue, l')
