-- ===== src/Depot.antt =====
-- Replication and migration in the storage cluster: internal/storage/storage_cluster.go, from
-- `UploadFileWithReplication` to `migrateFiles`.
--
-- `Depot` is the cluster with the objects of the bucket on each node, by their keys; a content is a
-- value of an unknown type `C`. The calls of MinIO and of the reader have numbers, and `Minio` says
-- which fail: a failed call changes nothing, as MinIO documents of writes. `exceeds` is the comparison
-- of the usage rate, a quotient of float64, with the threshold.
pub mod Kept
pub mod Replicas
use cloud_vault.Base.{
  Bool, List, Option, String, [], false, get_elem?, if◌then◌else◌, length, ltb, none, some, str_eq,
  suc, true, zero, ℕ, ◌&&◌, ◌+◌, ◌-◌, ◌==◌, ◌∷◌,
}
use cloud_vault.Base.Int.{eq_ℤ, ltb_ℤ, pos, ℤ, ◌-ℤ◌}
use cloud_vault.Cluster.{
  Choice, StorageCluster, StorageNode, Strategy, chosen, no_nodes, panics, select_least_conn,
  select_node, update_used_size,
}
use cloud_vault.World.{stored}

pub record Minio (C : Type 0) : Type 0 where
  pub fails : ℕ → Bool
  pub exceeds : ℤ → ℤ → ℤ → Bool
  -- what `ListObjects` sends for a node, by the number of the call: a key and a size, or an error
  pub listing : ℕ → ℕ → List (Option (String × ℤ))
  -- what `PutObject` of a number of bytes stores of a reader, which is `none` if it fails when it is
  -- read; or `none`, with an error
  pub sent : ℤ → Option C → Option C

pub record Depot (C : Type 0) : Type 0 where
  pub calls : ℕ
  pub cluster : StorageCluster
  pub blobs : ℕ → String → Option C

-- `GetUsageRate` above the threshold: the rate of a node without a size is 0.
unfoldable pub is_overfull : {C : Type 0} → Minio C → ℤ → StorageNode → Bool
is_overfull minio threshold node =
    if eq_ℤ node.total_size (pos 0)
    then ltb_ℤ threshold (pos 0)
    else minio.exceeds node.used_size node.total_size threshold

-- The number of replicas, at most one for each node
abbrev pub capped : ℕ → StorageCluster → ℕ
capped replica_count c =
    if ltb (length c.nodes) replica_count then length c.nodes else replica_count

module _ {C : Type 0} where
  abbrev pub tick_depot : Depot C → Depot C
  tick_depot d = record d { calls = d.calls + 1 }

  -- The objects once one of them is set or removed
  abbrev pub put_blob : ℕ → String → Option C → (ℕ → String → Option C) → ℕ → String → Option C
  put_blob i key content blobs k name = if k == i && str_eq name key then content else blobs k name

  module _ (minio : Minio C) where
    -- `PutObject` on a node, of a size and a reader: whether it succeeded
    unfoldable pub put_object : ℕ → String → ℤ → Option C → Depot C → Bool × Depot C
    put_object i key size reader d =
        if minio.fails d.calls then (false, tick_depot d) else elim (minio.sent size reader) [
          | none ↦ (false, tick_depot d)
          | some stored ↦
              (true, record (tick_depot d) { blobs = put_blob i key (some stored) d.blobs })
        ]

    -- `PutObject` of an object that `GetObject` has opened: the reader of an object that is gone
    -- fails when it is read.
    unfoldable pub copy_object : ℕ → ℕ → String → ℤ → Depot C → Bool × Depot C
    unfolding put_object
    copy_object i j key size d = put_object j key size (d.blobs i key) d

    -- `RemoveObject` on a node
    unfoldable pub remove_blob : ℕ → String → Depot C → Bool × Depot C
    remove_blob i key d =
        if minio.fails d.calls
        then (false, tick_depot d)
        else (true, record (tick_depot d) { blobs = put_blob i key none d.blobs })

    abbrev pub move_size : ℕ → ℕ → ℤ → Depot C → Depot C
    move_size i j size d = record d {
      cluster = update_used_size j size (update_used_size i (pos 0 -ℤ size) d.cluster);
    }

    -- What follows the copy of an object: it is removed where it was.
    unfoldable pub drop_source : ℕ → ℕ → String → ℤ → Bool × Depot C → Depot C
    unfolding remove_blob
    drop_source i j key size (false, d) = d
    drop_source i j key size (true, d) =
        let (removed, d') = remove_blob i key d in if removed then move_size i j size d' else d'

    -- One turn of the loop of `migrateFiles`
    unfoldable pub migrate_object : ℕ → ℕ → String → ℤ → Depot C → Depot C
    unfolding copy_object drop_source
    migrate_object i j key size d =
        if minio.fails d.calls
        then tick_depot d
        else drop_source i j key size (copy_object i j key size (tick_depot d))

    unfoldable pub migrate_all : ℕ → ℕ → List (Option (String × ℤ)) → Depot C → Depot C
    migrate_all i j [] d = d
    migrate_all i j (none ∷ listed) d = migrate_all i j listed d
    migrate_all i j (some (key, size) ∷ listed) d =
        migrate_all i j listed (migrate_object i j key size d)

    -- `migrateFiles`, which never returns an error
    unfoldable pub migrate_files : ℕ → ℕ → Depot C → Depot C
    unfolding migrate_all
    migrate_files i j d = migrate_all i j (minio.listing d.calls i) (tick_depot d)

    -- What `CheckAndMigrate` does with the node of index `i` and the choice of a target
    unfoldable pub migrate_to : ℕ → Choice → Depot C → Depot C
    unfolding migrate_files
    migrate_to i (chosen j) d = if i == j then d else migrate_files i j d
    migrate_to i no_nodes d = d
    migrate_to i panics d = d

    -- The loop of `CheckAndMigrate` from the node of index `i` on, for `n` nodes
    unfoldable pub check_from : ℤ → ℕ → ℕ → Depot C → Depot C
    unfolding migrate_to is_overfull select_least_conn
    check_from threshold zero i d = d
    check_from threshold (suc n) i d =
        let d' : Depot C = elim (get_elem? d.cluster.nodes i) [
          | none ↦ d
          | some node ↦
              if is_overfull minio threshold node
              then migrate_to i (select_least_conn d.cluster) d
              else d
        ] in
        check_from threshold n (i + 1) d'

    -- `CheckAndMigrate`
    unfoldable pub check_and_migrate : ℤ → Depot C → Depot C
    unfolding check_from
    check_and_migrate threshold d = check_from threshold (length d.cluster.nodes) 0 d

    -- The write to a node that was chosen: whether there is one and the write succeeded
    unfoldable pub upload_to : String → C → ℤ → Choice × StorageCluster → Depot C → Bool × Depot C
    unfolding put_object
    upload_to key content size (chosen i, c) d =
        let (done, d') = put_object i key size (some content) (record d { cluster = c }) in
        (done, if done then record d' { cluster = update_used_size i size d'.cluster } else d')
    upload_to key content size (no_nodes, c) d = (false, record d { cluster = c })
    upload_to key content size (panics, c) d = (false, record d { cluster = c })

    module _ (strategy : Strategy) where
      -- The loop over the other replicas; `Seek` is a call that may fail.
      unfoldable pub replicate_on : ℕ → String → C → ℤ → Depot C → Depot C
      unfolding upload_to select_node
      replicate_on zero key content size d = d
      replicate_on (suc n) key content size d =
          let choice : Choice × StorageCluster = select_node strategy d.cluster in
          let d' : Depot C =
            if minio.fails d.calls
            then record (tick_depot d) { cluster = choice.1 }
            else (upload_to key content size choice (tick_depot d)).1 in
          replicate_on n key content size d'

      -- `UploadFileWithReplication`: whether it returned nil
      unfoldable pub upload_file_with_replication : ℕ → String → C → ℤ → Depot C → Bool × Depot C
      unfolding upload_to replicate_on select_node
      upload_file_with_replication replica_count key content size d =
          let count : ℕ = capped replica_count d.cluster in
          let (done, d') = upload_to key content size (select_node strategy d.cluster) d in
          if done then (true, replicate_on (count - 1) key content size d') else (false, d')
