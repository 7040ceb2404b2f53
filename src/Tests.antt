-- ===== src/Tests.antt =====
-- The theorems at concrete inputs.
pub mod Statistics
pub mod Sources
pub mod Shelves
pub mod Folders
pub mod Tasks
pub mod Spelling
pub mod Settings
pub mod Sharing
pub mod Locks
pub mod Messages
pub mod Depots
pub mod Archives
pub mod Listings
pub mod Visitors
pub mod Visits
pub mod Transfers
pub mod Worlds
use cloud_vault.Base.{
  Option, [], arith, false, none, refl, some, true, update_where, ℕ, ◌+◌, ◌<◌, ◌==◌, ◌∷◌, ◌≡◌, ◌⊎◌,
}
use cloud_vault.Base.Int.{pos, ℤ, ◌+ℤ◌, ◌-ℤ◌}
use cloud_vault.Cluster.{StorageCluster, select_round_robin}
use cloud_vault.Cluster.Turns.{IsGood, select_round_robin-IsGood}
use cloud_vault.Download.{
  Broker, Desk, DownloadMessage, give_up, max_retry, pick_retry_delay, settle,
}
use cloud_vault.Download.Retry.{
  IsWithin, pick_retry_delay-clamped, settle-IsWithin, settle-remembers,
}
use cloud_vault.Multipart.{MultipartInit, multi_part_file_init}
use cloud_vault.Multipart.Safety.{multi_part_file_init-IsCounted}
use cloud_vault.Object.{remove_object}
use cloud_vault.Object.Counting.{IsCounted}
use cloud_vault.Object.Last.{IsGone, IsKeptOrErased, remove_object-IsGone}
use cloud_vault.Object.Shared.{remove_object-shared}
use cloud_vault.Rows.{FileObject, http_status, running}
use cloud_vault.Sharding.{ShardingManager, count_opening, get_shard_db, put_database}
use cloud_vault.Sharding.Reuse.{get_shard_db-again}
use cloud_vault.Tests.Worlds.{env, report, world}
use cloud_vault.Upload.{HashUpload, fast_upload}
use cloud_vault.Upload.Safety.{fast_upload-IsCounted}
use cloud_vault.World.{World}
use cloud_vault.World.Rules.{Always, Post}

abbrev request : HashUpload
request = record { user_id = 8; file_name = "copy.pdf"; size = pos 10; hash = "abc"; parent_id = 0 }

fast_upload-IsCounted_example : IsCounted (fast_upload env request world).1
fast_upload-IsCounted_example = fast_upload-IsCounted env request world (omega arith)

remove_object-shared_example : (remove_object env 1 world).1.store ≡ 0
remove_object-shared_example = remove_object-shared env 1 report world refl (omega arith)

abbrev last_report : FileObject
last_report = record report { ref_count = 1 }

abbrev last_world : World ℕ
last_world = record world { objects = last_report ∷ [] }

remove_object-IsGone_example :
    Post
      (Always (IsGone env 1 last_report last_world))
      (IsKeptOrErased env 1 last_report last_world)
      (remove_object env 1 last_world)
remove_object-IsGone_example = remove_object-IsGone env 1 last_report last_world refl (omega arith)

abbrev broker : Broker
broker = record {
  db_fails = λ n. false;
  publish_fails = λ n. false;
  clock = λ n. pos n;
  retry_max = pos 2;
  retry_delays = pos 10 ∷ pos 30 ∷ [];
}

abbrev message_at_limit : DownloadMessage
message_at_limit = record { task_id = 5; attempt = pos 1 }

abbrev desk : Desk
desk = record {
  calls = 0;
  tasks =
      record {
        id = 5;
        user_id = 7;
        source = [];
        bucket = "netdisk";
        object_name = "t5";
        file_name = "film.mp4";
        status = running;
        progress = 0;
        retry_count = pos 1;
        next_retry_at = none;
        started_at = none;
        finished_at = none;
        error_msg = none;
      }
      ∷ [];
  retried = (message_at_limit, pos 10) ∷ [];
  dead = [];
}

settle-remembers_example :
    ((settle broker message_at_limit (some (http_status 503)) desk).1.tasks
      ≡ update_where (λ t. t.id == 5) (give_up (http_status 503) (pos 0)) desk.tasks)
    ⊎ ((settle broker message_at_limit (some (http_status 503)) desk).1.retried
        ≡ (message_at_limit, pos 10) ∷ (record { task_id = 5; attempt = pos 2 }, pos 30) ∷ [])
unfolding settle ◌+ℤ◌ ◌-ℤ◌ max_retry
settle-remembers_example = settle-remembers broker message_at_limit (http_status 503) desk refl

settle-IsWithin_example :
    IsWithin
      (max_retry broker)
      (settle broker message_at_limit (some (http_status 503)) desk).1.retried
unfolding max_retry
settle-IsWithin_example =
    settle-IsWithin broker message_at_limit (some (http_status 503)) desk (omega arith)

pick_retry_delay-clamped_example :
    ◌≡◌ {A = Option ℤ} (some (pos 30)) (some (pick_retry_delay (pos 7) (pos 10 ∷ pos 30 ∷ [])))
unfolding ◌-ℤ◌
pick_retry_delay-clamped_example = pick_retry_delay-clamped (pos 7) (pos 10) (pos 30 ∷ [])

abbrev init_request : MultipartInit
init_request = record {
  user_id = 8;
  file_name = "copy.pdf";
  size = pos 10;
  hash = "abc";
  chunk_size = pos 5;
  total_chunks = pos 2;
  parent_id = 0;
}

multi_part_file_init-IsCounted_example : IsCounted (multi_part_file_init env init_request world).1
multi_part_file_init-IsCounted_example =
    multi_part_file_init-IsCounted env init_request world (omega arith)

abbrev cluster : StorageCluster
cluster = record {
  nodes =
      record { name = "a"; available = true; used_size = pos 5; total_size = pos 10 }
      ∷ record { name = "b"; available = false; used_size = pos 0; total_size = pos 10 }
      ∷ [];
  current_idx = 1;
}

select_round_robin-IsGood_example :
    IsGood cluster.nodes (select_round_robin cluster).0
    × ((select_round_robin cluster).1.nodes ≡ cluster.nodes)
    × ((select_round_robin cluster).1.current_idx < 2)
select_round_robin-IsGood_example = select_round_robin-IsGood cluster (omega arith)

abbrev shards : ShardingManager ℕ
shards = record {
  config = record { shard_count = 4; enabled = true };
  databases = λ k. none;
  openings = 0;
}

-- Each opening gives a connection of its own.
abbrev open_database : ℕ → ℕ → Option ℕ
open_database n i = some (100 + n)

abbrev opened_shards : ShardingManager ℕ
opened_shards = put_database 2 100 (count_opening shards)

get_shard_db-again_example :
    get_shard_db open_database 0 opened_shards 10 ≡ some (100, opened_shards)
unfolding get_shard_db
get_shard_db-again_example =
    get_shard_db-again open_database 0 shards opened_shards 6 10 100 100 refl refl refl
