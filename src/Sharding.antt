-- ===== src/Sharding.antt =====
-- Shards by user id (internal/repo/sharding.go). A connection is a value of an unknown type `D`;
-- opening one, which may fail, is a parameter, by the number of the opening and the index.
pub mod Reuse
use cloud_vault.Base.{
  Bool, Option, String, false, if◌then◌else◌, none, not, some, suc, true, zero, ℕ, ◌%◌, ◌+◌, ◌==◌,
  ◌||◌,
}

-- `ShardingConfig`: `shard_count` is the count as `uint64`.
pub record ShardingConfig : Type 0 where
  pub shard_count : ℕ
  pub enabled : Bool

-- `ShardingManager`
pub record ShardingManager (D : Type 0) : Type 0 where
  pub config : ShardingConfig
  pub databases : ℕ → Option D
  -- how often `createShardDB` was called: each call opens a connection of its own
  pub openings : ℕ

abbrev pub put_database : {D : Type 0} → ℕ → D → ShardingManager D → ShardingManager D
put_database i db m = record m { databases = λ k. if k == i then some db else m.databases k }

abbrev pub count_opening : {D : Type 0} → ShardingManager D → ShardingManager D
count_opening m = record m { openings = m.openings + 1 }

module _ {D : Type 0} (create_shard_db : ℕ → ℕ → Option D) (default_db : D) where
  -- `GetShardDB` for the shard of an index: the map is read, and read again under the lock.
  unfoldable pub open_shard : ShardingManager D → ℕ → D × ShardingManager D
  open_shard m i = elim (m.databases i) [
    | some db ↦ (db, m)
    | none ↦ elim (m.databases i) [
      | some db ↦ (db, m)
      | none ↦ elim (create_shard_db m.openings i) [
        | none ↦ (default_db, count_opening m)
        | some db ↦ (db, put_database i db (count_opening m))
      ]
    ]
  ]

  -- `GetShardDB`: `none` is the panic of a remainder by 0.
  unfoldable pub get_shard_db : ShardingManager D → ℕ → Option (D × ShardingManager D)
  unfolding open_shard
  get_shard_db m user =
      if not m.config.enabled
      then some (default_db, m)
      else (if m.config.shard_count == 0
          then none
          else some (open_shard m (user % m.config.shard_count)))

-- `GetTableName`: the base name, with the index of the shard if there are shards; `none` is the
-- panic of a remainder by 0.
unfoldable pub get_table_name :
    {D : Type 0} → ShardingManager D → String → ℕ → Option (String × Option ℕ)
get_table_name m base user =
    if not m.config.enabled
    then some (base, none)
    else (if m.config.shard_count == 0
        then none
        else some (base, some (user % m.config.shard_count)))

-- What comes of closing a connection: there is no instance, the close fails, or it is closed.
pub data Closed : Type 0 where
  no_instance close_failed closed : Closed

abbrev pub is_close_error : {D : Type 0} → (D → Closed) → Option D → Bool
is_close_error close none = false
is_close_error close (some db) = elim (close db) [
  | no_instance ↦ false
  | close_failed ↦ true
  | closed ↦ false
]

-- The loop of `CloseShardConnections` over the shards below a number: whether a close has failed
unfoldable pub any_close_error : {D : Type 0} → (D → Closed) → ShardingManager D → ℕ → Bool
any_close_error close m zero = false
any_close_error close m (suc i) = is_close_error close (m.databases i) || any_close_error close m i

-- `CloseShardConnections`: whether it returned nil. Each index of the map is below the count of
-- shards.
unfoldable pub close_shard_connections :
    {D : Type 0} → (D → Closed) → ShardingManager D → Bool × ShardingManager D
unfolding any_close_error
close_shard_connections close m =
    (not (any_close_error close m m.config.shard_count), record m { databases = λ i. none })
