-- ===== src/Download.antt =====
-- What the download worker does with the outcome of a task (internal/worker/download_worker.go):
-- acknowledge, retry after a delay, give up, or requeue. `Desk` holds the task table and what was
-- published; `Broker` says which statement and which publication fails, and has the configuration.
pub mod Retry
use cloud_vault.Base.{
  Bool, List, Option, [], false, if◌then◌else◌, leb, length, none, some, suc, true, update_where,
  zero, ℕ, ◌++◌, ◌+◌, ◌==◌, ◌||◌, ◌∷◌,
}
use cloud_vault.Base.Int.{eq_ℤ, leb_ℤ, ltb_ℤ, pos, pos_part, ℤ, ◌+ℤ◌, ◌-ℤ◌}
use cloud_vault.Rows.{
  DownloadTask, Error, canceled, failed, http_status, record_not_found, retrying,
}

-- task.DownloadMessage
pub record DownloadMessage : Type 0 where
  pub task_id : ℕ
  pub attempt : ℤ

pub record Desk : Type 0 where
  pub calls : ℕ
  pub tasks : List DownloadTask
  -- `PublishRetry`, each message with its delay
  pub retried : List (DownloadMessage × ℤ)
  -- `PublishDLQ`, each message with its error
  pub dead : List (DownloadMessage × Error)

pub record Broker : Type 0 where
  pub db_fails : ℕ → Bool
  pub publish_fails : ℕ → Bool
  pub clock : ℕ → ℤ
  pub retry_max : ℤ
  pub retry_delays : List ℤ

pub data Verdict : Type 0 where
  -- `delivery.Ack(false)` and `delivery.Nack(false, true)`
  ack requeue : Verdict

-- `shouldRetry`
unfoldable pub should_retry : Error → Bool
should_retry record_not_found = false
should_retry (http_status code) = code == 408 || code == 429 || leb 500 code
should_retry _ = true

abbrev pub last_or : ℤ → List ℤ → ℤ
last_or d [] = d
last_or d (e ∷ es) = last_or e es

abbrev pub get_or : List ℤ → ℕ → ℤ → ℤ
get_or [] i d = d
get_or (x ∷ xs) zero d = x
get_or (x ∷ xs) (suc i) d = get_or xs i d

-- `pickRetryDelay`
unfoldable pub pick_retry_delay : ℤ → List ℤ → ℤ
pick_retry_delay attempt [] = pos 0
pick_retry_delay attempt (d ∷ ds) =
    let before : ℤ = attempt -ℤ pos 1 in
    let index : ℤ = if ltb_ℤ before (pos 0) then pos 0 else before in
    if leb_ℤ (pos (length (d ∷ ds))) index
    then last_or d ds
    else get_or (d ∷ ds) (pos_part index) (pos 0)

abbrev pub step : Desk → Desk
step d = record d { calls = d.calls + 1 }

abbrev pub change_task : ℕ → (DownloadTask → DownloadTask) → Desk → Desk
change_task id change d = record d { tasks = update_where (λ t. t.id == id) change d.tasks }

abbrev pub give_up : Error → ℤ → DownloadTask → DownloadTask
give_up e time t = record t { status = failed; error_msg = some e; finished_at = some time }

abbrev pub put_off : Error → ℤ → ℤ → DownloadTask → DownloadTask
put_off e next time t = record t {
  status = retrying;
  error_msg = some e;
  retry_count = next;
  next_retry_at = some time;
}

-- `markFailed`: whether it returned nil. A failed publication to the dead letters is only logged.
unfoldable pub mark_failed : Broker → DownloadMessage → Error → Desk → Bool × Desk
mark_failed broker msg e d =
    let time : ℤ = broker.clock d.calls in
    if broker.db_fails d.calls
    then (false, step d)
    else (let d' : Desk = change_task msg.task_id (give_up e time) (step d) in
        (
          true,
          if broker.publish_fails d'.calls
              then step d'
              else record (step d') { dead = d'.dead ++ (msg, e) ∷ [] },
        ))

-- `maxRetry` of `scheduleRetry`
unfoldable pub max_retry : Broker → ℤ
max_retry broker = if ltb_ℤ broker.retry_max (pos 0) then pos 0 else broker.retry_max

-- `scheduleRetry`: whether it returned nil.
unfoldable pub schedule_retry : Broker → DownloadMessage → Error → Desk → Bool × Desk
unfolding mark_failed pick_retry_delay
schedule_retry broker msg e d =
    let next : ℤ = msg.attempt +ℤ pos 1 in
    let delay : ℤ = pick_retry_delay next broker.retry_delays in
    let time : ℤ = broker.clock d.calls +ℤ delay in
    if eq_ℤ (max_retry broker) (pos 0) || ltb_ℤ (max_retry broker) next
    then mark_failed broker msg e d
    else (if broker.db_fails d.calls
        then (false, step d)
        else (let d' : Desk = change_task msg.task_id (put_off e next time) (step d) in
            if broker.publish_fails d'.calls then (false, step d') else (
              true,
              record (step d') {
                retried = d'.retried ++ (record msg { attempt = next }, delay) ∷ [];
              },
            )))

abbrev pub verdict_of : Bool × Desk → Verdict × Desk
verdict_of (true, d) = (ack, d)
verdict_of (false, d) = (requeue, d)

-- `errors.Is(err, context.Canceled) || errors.Is(err, context.DeadlineExceeded)`
abbrev pub is_canceled : Error → Bool
is_canceled canceled = true
is_canceled _ = false

-- The end of `handleDownloadMessage`: what becomes of a delivery when `ProcessDownloadTask` has
-- returned.
unfoldable pub settle : Broker → DownloadMessage → Option Error → Desk → Verdict × Desk
unfolding schedule_retry mark_failed should_retry
settle broker msg none d = (ack, d)
settle broker msg (some e) d =
    if is_canceled e
    then (requeue, d)
    else (if should_retry e
        then verdict_of (schedule_retry broker msg e d)
        else verdict_of (mark_failed broker msg e d))
