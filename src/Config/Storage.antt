-- ===== src/Config/Storage.antt =====
-- The configuration of the storage: config/storage.go.
use cloud_vault.Base.{Bool, List, [], false, true, ◌*◌, ◌∷◌}
use cloud_vault.Base.Int.{pos, ℤ}
use cloud_vault.Base.Text.{Text, codes}
use cloud_vault.Config.{Process, get_env}

pub record MinioClusterConfig : Type 0 where
  pub name : Text
  pub host : Text
  pub port : Text
  pub username : Text
  pub password : Text
  pub use_ssl : Bool
  pub available : Bool
  pub used_size : ℤ
  pub total_size : ℤ
  pub weight : ℤ

pub record StorageConfig : Type 0 where
  pub minio_clusters : List MinioClusterConfig
  pub replica_count : ℤ
  pub load_balance_strategy : Text
  pub enable_sharding : Bool
  pub shard_size : ℤ
  pub migration_threshold : ℤ

-- `InitStorageConfig`
unfoldable pub init_storage_config : {F : Type 0} → Process F → StorageConfig
unfolding get_env
init_storage_config p = record {
  minio_clusters =
      record {
        name = codes "cluster1";
        host = get_env p "MINIO_HOST" "localhost";
        port = get_env p "MINIO_PORT" "9000";
        username = get_env p "MINIO_USERNAME" "minioadmin";
        password = get_env p "MINIO_PASSWORD" "minioadmin";
        use_ssl = false;
        available = true;
        used_size = pos 0;
        total_size = pos (100 * 1024 * 1024 * 1024);
        weight = pos 1;
      }
      ∷ [];
  replica_count = pos 2;
  load_balance_strategy = codes "round_robin";
  enable_sharding = true;
  shard_size = pos (10 * 1024 * 1024);
  migration_threshold = pos 80;
}
