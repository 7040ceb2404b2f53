-- ===== src/Sharding/Reuse.antt =====
-- One connection serves all users of a shard.
use cloud_vault.Base.{Option, arith, some, ℕ, ◌%◌, ◌≡◌}
use cloud_vault.Config.{second}
use cloud_vault.Sharding.{ShardingManager, get_shard_db, open_shard}

module _ {D : Type 0} (create_shard_db : ℕ → ℕ → Option D) (default_db : D) where
  open_shard-again :
      (m : ShardingManager D) (i : ℕ) (db : D)
      → create_shard_db m.openings i ≡ some db
      → open_shard create_shard_db default_db (open_shard create_shard_db default_db m i).1 i
        ≡ open_shard create_shard_db default_db m i
  unfolding open_shard
  open_shard-again m i db e = ground arith

  -- When the connection of a user's shard can be opened, a second user of the same shard is given
  -- the same connection, and the manager stays as the first call left it.
  pub get_shard_db-again :
      (m v : ShardingManager D) (user second : ℕ) (db got : D)
      → create_shard_db m.openings (user % m.config.shard_count) ≡ some db
      → second % m.config.shard_count ≡ user % m.config.shard_count
      → get_shard_db create_shard_db default_db m user ≡ some (got, v)
      → get_shard_db create_shard_db default_db v second ≡ some (got, v)
  unfolding get_shard_db
  get_shard_db-again m v user second db got e same opened = ground arith
