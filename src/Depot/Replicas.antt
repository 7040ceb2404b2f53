-- ===== src/Depot/Replicas.antt =====
-- An upload to the cluster that succeeds is stored.
use cloud_vault.Base.{
  Bool, Bool-cases, Option, String, arith, false, if◌then◌else◌, inl, inr, none, refl, some,
  str_eq_iff, suc, true, zero, ℕ, ◌-◌, ◌≡◌,
}
use cloud_vault.Base.Int.{ℤ}
use cloud_vault.Cluster.{
  Choice, StorageCluster, Strategy, chosen, no_nodes, panics, select_node, update_used_size,
}
use cloud_vault.Depot.{
  Depot, Minio, capped, put_blob, put_object, replicate_on, tick_depot,
  upload_file_with_replication, upload_to,
}

-- Some node holds the content under the key.
abbrev pub IsStored : {C : Type 0} → String → C → (ℕ → String → Option C) → Type 0
IsStored key content blobs = (k : ℕ) × (blobs k key ≡ some content)

module _ {C : Type 0} (minio : Minio C) (key : String) (content : C) where
  -- Some node holds under the key what `PutObject` stores of the content with a size.
  abbrev pub IsSent : ℤ → (ℕ → String → Option C) → Type 0
  IsSent size blobs = (c : C) × (minio.sent size (some content) ≡ some c) × IsStored key c blobs

  put_blob-IsSent :
      (i : ℕ) (size : ℤ) (c : C) (blobs : ℕ → String → Option C)
      → minio.sent size (some content) ≡ some c
      → IsSent size (put_blob i key (some c) blobs)
  put_blob-IsSent i size c blobs e = (c, e, (i, ground (arith, str_eq_iff key key)))

  -- A write that succeeds stores the content; one that fails leaves all as it is.
  abbrev pub Written : ℤ → Depot C → Bool × Depot C → Type 0
  Written size d (true, d') = IsSent size d'.blobs
  Written size d (false, d') = d'.blobs ≡ d.blobs

  upload_to-Written :
      (size : ℤ) (choice : Choice × StorageCluster) (d : Depot C)
      → Written size d (upload_to minio key content size choice d)
  unfolding upload_to put_object update_used_size
  upload_to-Written size (chosen i, c) d = elim (Bool-cases (minio.fails d.calls)) [
    | inl down ↦ rw down refl
    | inr up ↦ rw up (of_stored (minio.sent size (some content)) refl)
  ]
    where
      of_stored :
          (o : Option C)
          → minio.sent size (some content) ≡ o
          → Written size d (
              let (done, d') = (elim o as (λ _. Bool × Depot C) [
                | none ↦ (false, tick_depot (record d { cluster = c }))
                | some x ↦ (
                  true,
                  record (tick_depot (record d { cluster = c })) {
                    blobs = put_blob i key (some x) d.blobs;
                  },
                )
              ]) in
              (
                done,
                if done then record d' { cluster = update_used_size i size d'.cluster } else d',
              ))
      of_stored none e = refl
      of_stored (some x) e = put_blob-IsSent i size x d.blobs e
  upload_to-Written size (no_nodes, c) d = refl
  upload_to-Written size (panics, c) d = refl

  IsSent-after :
      (size : ℤ) (d : Depot C) (out : Bool × Depot C)
      → Written size d out
      → IsSent size d.blobs
      → IsSent size out.1.blobs
  IsSent-after size d (true, d') w h = w
  IsSent-after size d (false, d') w h = rw w h

  replicate_on-IsSent :
      (strategy : Strategy) (n : ℕ) (size : ℤ) (d : Depot C)
      → IsSent size d.blobs
      → IsSent size (replicate_on minio strategy n key content size d).blobs
  unfolding replicate_on
  replicate_on-IsSent strategy zero size d h = h
  replicate_on-IsSent strategy (suc n) size d h =
      let choice = select_node strategy d.cluster in
      replicate_on-IsSent strategy n size _ (elim (Bool-cases (minio.fails d.calls)) [
        | inl down ↦ rw down h
        | inr up ↦
            rw up
              (IsSent-after size (tick_depot d) _ (upload_to-Written size choice (tick_depot d)) h)
      ])

  and_then :
      (size : ℤ) (f : Depot C → Depot C) (d : Depot C) (out : Bool × Depot C)
      → ((e : Depot C) → IsSent size e.blobs → IsSent size (f e).blobs)
      → Written size d out
      → Written size d (if out.0 then (true, f out.1) else (false, out.1))
  and_then size f d (true, d') keeps w = keeps d' w
  and_then size f d (false, d') keeps w = w

  -- Once an upload has succeeded, some node holds what `PutObject` stores of its content and size,
  -- whatever becomes of the other replicas; and one that fails has changed no node.
  pub upload_file_with_replication-Written :
      (strategy : Strategy) (replica_count : ℕ) (size : ℤ) (d : Depot C)
      → Written size d
          (upload_file_with_replication minio strategy replica_count key content size d)
  unfolding upload_file_with_replication
  upload_file_with_replication-Written strategy replica_count size d =
      let others : ℕ = capped replica_count d.cluster - 1 in
      and_then size (replicate_on minio strategy others key content size) d _
        (λ e h. replicate_on-IsSent strategy others size e h)
        (upload_to-Written size (select_node strategy d.cluster) d)
