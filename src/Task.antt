-- ===== src/Task.antt =====
-- Offline download tasks: internal/task/download_task.go.
--
-- The rows are those of `World`. The queue is a parameter: `publish` says whether `PublishTask`
-- succeeds for the key of a task. Times are left out of `ProcessDownloadTask`, as in the other
-- services.
pub mod Once
use cloud_vault.Activity.{publish}
use cloud_vault.Base.{
  Bool, Option, String, [], any, false, find?, if◌then◌else◌, none, some, true, update_where, ℕ,
  ◌&&◌, ◌++◌, ◌+◌, ◌==◌, ◌∷◌,
}
use cloud_vault.Base.Int.{pos, ℤ}
use cloud_vault.Base.Text.{Text}
use cloud_vault.File.Table.{create_user_file_entry, emit}
use cloud_vault.Object.{create_files_object, delete_object_row, get_file_object_by_hash}
use cloud_vault.Rows.{
  Action, DownloadTask, Error, FileObject, Status, completed, db_failure, failed, message, pending,
  retrying, running,
}
use cloud_vault.Source.{Net, SourceConfig, Url}
use cloud_vault.Transfer.{
  Response, discard_blob, download_by_http, file_row, find_user_name_by_id, new_object,
}
use cloud_vault.World.{
  Env, M, Result, attempt, err, fail, first, ignore, new_token, ok, pure, sql, unfinished, ◌>>=◌,
  ◌>>◌,
}

abbrev pub is_open : Status → Bool
is_open pending = true
is_open retrying = true
is_open _ = false

abbrev pub is_completed : Status → Bool
is_completed completed = true
is_completed _ = false

abbrev pub started : DownloadTask → DownloadTask
started t = record t { status = running; progress = 0; error_msg = none }

abbrev pub finished : DownloadTask → DownloadTask
finished t = record t { status = completed; progress = 100 }

abbrev pub failed_with : Error → DownloadTask → DownloadTask
failed_with e t = record t { status = failed; error_msg = some e }

-- The object of a task's file, and whether it was created for it
pub record TaskObject : Type 0 where
  pub object_id : ℕ
  pub created_new_object : Bool

module _ {S : Type 0} (env : Env S) where
  -- `markDownloadTaskFailed`, whose error is dropped
  unfoldable pub mark_download_task_failed : ℕ → Error → M S (Unit {0})
  mark_download_task_failed id e = ignore (
      sql env
        λ w. (ok tt, record w { tasks = update_where (λ t. t.id == id) (failed_with e) w.tasks }))

  abbrev pub new_task : ℕ → Text → String → String → ℕ → DownloadTask
  new_task user url file_name token id = record {
    id = id;
    user_id = user;
    source = url;
    bucket = env.bucket;
    object_name = token;
    file_name = file_name;
    status = pending;
    progress = 0;
    error_msg = none;
    retry_count = pos 0;
    next_retry_at = none;
    started_at = none;
    finished_at = none;
  }

  -- `CreateDownloadTask`: the key of the task
  unfoldable pub create_download_task : (ℕ → Bool) → ℕ → Text → String → M S ℕ
  unfolding mark_download_task_failed
  create_download_task publish user url file_name = do
    token ← new_token env
    id ← sql env λ w. (
      ok w.next_task,
      record w {
        tasks = w.tasks ++ new_task user url file_name token w.next_task ∷ [];
        next_task = w.next_task + 1;
      },
    )
    if publish id then pure id else (do
      mark_download_task_failed id (message "publish failed")
      fail (message "publish failed"))

  -- The claim of a task: whether a row was changed
  unfoldable pub claim_task : ℕ → M S Bool
  claim_task id = sql env λ w. (
    ok (any (λ t. t.id == id && is_open t.status) w.tasks),
    record w { tasks = update_where (λ t. t.id == id && is_open t.status) started w.tasks },
  )

  -- The record of the blob: a new object, or the one that the hash already has
  unfoldable pub after_create : DownloadTask → String → Result FileObject → M S TaskObject
  unfolding get_file_object_by_hash discard_blob
  after_create task object (ok row) =
      pure (record { object_id = row.id; created_new_object = true })
  after_create task object (err e) = do
    found ← attempt (get_file_object_by_hash env task.object_name)
    elim found [
      | ok obj ↦ pure (record { object_id = obj.id; created_new_object = false })
      | err _ ↦ discard_blob env task.bucket object >> fail e
      | unfinished ↦ fail e
    ]
  after_create task object unfinished = fail db_failure

  -- The end of a task, once its user file has been tried
  unfoldable pub finish_task : DownloadTask → String → TaskObject → ℤ → Result ℕ → M S (Unit {0})
  unfolding discard_blob
  finish_task task object placed size (ok file) = do
    sql env λ w. (ok tt, record w { tasks = update_where (λ t. t.id == task.id) finished w.tasks })
    emit task.user_id Action.download file size
  finish_task task object placed size (err e) = do
    if placed.created_new_object
        then (do
          discard_blob env task.bucket object
          ignore (delete_object_row env placed.object_id))
        else pure tt
    fail e
  finish_task task object placed size unfinished = fail db_failure

  module _ (net : Net) (config : SourceConfig) (max_bytes : ℤ)
      (fetch : (Text → Bool) → Url → Option Response)
      (build_object_name : String → String → String) where
    -- `ProcessDownloadTask` once the task is claimed
    unfoldable pub run_task : DownloadTask → M S (Unit {0})
    unfolding download_by_http find_user_name_by_id create_files_object after_create
        create_user_file_entry finish_task
    run_task task = do
      size ←
          download_by_http env net config max_bytes fetch build_object_name task.source
            task.object_name task.user_id
      user_name ← find_user_name_by_id env task.user_id
      let object = build_object_name user_name task.object_name
      recorded ← attempt (
          create_files_object env
            (new_object task.user_id task.object_name task.bucket object size))
      placed ← after_create task object recorded
      created ← attempt (
          create_user_file_entry env
            (file_row task.user_id none task.file_name placed.object_id size))
      finish_task task object placed size created

    -- `ProcessDownloadTask`
    unfoldable pub process_download_task : ℕ → M S (Unit {0})
    unfolding claim_task run_task
    process_download_task id = do
      task ← first env (λ w. find? (λ t. t.id == id) w.tasks)
      if is_completed task.status
          then pure tt
          else (do claimed ← claim_task id; if claimed then run_task task else pure tt)
