-- ===== src/Tests/Tasks.antt =====
-- Download tasks at concrete inputs: task 5 runs while its message is delivered again; and task 6 is
-- tried again after its file has been created.
use cloud_vault.Base.{[], false, inl, none, refl, ℕ, ◌∷◌, ◌≡◌}
use cloud_vault.Base.Int.{pos}
use cloud_vault.Base.Text.{codes, is_space}
use cloud_vault.Object.Counting.{refs}
use cloud_vault.Rows.{DownloadTask, retrying, running}
use cloud_vault.Source.{
  check_address, check_lookup, check_url, host_allowed, is_blocked_ip, is_local_hostname,
}
use cloud_vault.Task.{process_download_task}
use cloud_vault.Task.Once.{IsUntouched, process_download_task-closed}
use cloud_vault.Tests.Sources.{resolver, source_config}
use cloud_vault.Tests.Transfers.{answer_of, name_of}
use cloud_vault.Tests.Worlds.{ann, env, report, world}
use cloud_vault.World.{Env, World, attempt, redis, redis_get, sql, stored, ◌>>=◌}

abbrev film : DownloadTask
film = record {
  id = 5;
  user_id = 7;
  source = codes "https://cdn.example.org/film";
  bucket = "netdisk";
  object_name = "abc";
  file_name = "film.mp4";
  status = running;
  progress = 0;
  error_msg = none;
  retry_count = pos 0;
  next_retry_at = none;
  started_at = none;
  finished_at = none;
}

abbrev running_world : World ℕ
running_world = record world { tasks = film ∷ [] }

process_download_task-closed_example :
    IsUntouched running_world
      (process_download_task env resolver source_config
        (pos 100)
        answer_of
        name_of
        5
        running_world).1
process_download_task-closed_example =
    process_download_task-closed env resolver source_config (pos 100) answer_of name_of 5
      running_world ((λ e. inl refl), tt)

-- The first run stored the object and its row, and was cut off before the task was marked.
abbrev retried_world : World ℕ
retried_world = record world {
  users = ann ∷ [];
  objects = record report { ref_count = 1 } ∷ [];
  tasks = record film { id = 6; status = retrying } ∷ [];
}

abbrev calm : Env ℕ
calm = record env { db_fails = λ n. false }

-- The second run adds a row for the same object, whose count stays at 1.
second_row_uncounted :
    let w =
      (process_download_task calm resolver source_config
        (pos 100)
        answer_of
        name_of
        6
        retried_world).1 in
    (refs 1 w.files ≡ 2) × (w.objects ≡ record report { ref_count = 1 } ∷ [])
unfolding process_download_task ◌>>=◌ sql check_url host_allowed is_space is_local_hostname
    check_address check_lookup is_blocked_ip redis_get redis stored attempt
second_row_uncounted = (refl, refl)
