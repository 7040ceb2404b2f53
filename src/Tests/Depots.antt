-- ===== src/Tests/Depots.antt =====
-- The storage cluster at concrete inputs: two nodes, of which the first is full.
use cloud_vault.Base.{
  Bool, Bool-cases, String, [], arith, false, if◌then◌else◌, inl, inr, none, refl, some, str_eq,
  true, ℕ, ◌&&◌, ◌<◌, ◌==◌, ◌∷◌, ◌≡◌, ◌⊎◌,
}
use cloud_vault.Base.Int.{eq_ℤ, pos, ◌+ℤ◌}
use cloud_vault.Cluster.{
  StorageNode, chosen, round_robin, round_robin_from, select_node, select_round_robin,
  update_used_size,
}
use cloud_vault.Cluster.Fairness.{select_round_robin-serves, turns}
use cloud_vault.Depot.{
  Depot, Minio, check_and_migrate, put_object, replicate_on, upload_file_with_replication,
  upload_to,
}
use cloud_vault.Depot.Kept.{IsHeld, check_and_migrate-IsHeld}
use cloud_vault.Depot.Replicas.{Written, upload_file_with_replication-Written}

abbrev node_named : String → Bool → StorageNode
node_named name available = record {
  name = name;
  available = available;
  used_size = pos 0;
  total_size = pos 100;
}

abbrev minio : Minio ℕ
minio = record {
  fails = λ n. n == 3;
  exceeds = λ used total threshold. true;
  listing = λ n i. some ("files/ann/abc", pos 10) ∷ none ∷ [];
  sent = λ size reader. if eq_ℤ size (pos 0) then some 0 else reader;
}

abbrev depot : Depot ℕ
depot = record {
  calls = 0;
  cluster = record { nodes = node_named "a" true ∷ node_named "b" true ∷ []; current_idx = 0 };
  blobs = λ i key. if i == 1 && str_eq key "files/ann/abc" then some 5 else none;
}

depot-IsHeld : IsHeld "files/ann/abc" 5 depot.blobs
depot-IsHeld = record { node = 1; held = refl; alike = alike }
  where
    alike :
        (k : ℕ) → (depot.blobs k "files/ann/abc" ≡ none) ⊎ (depot.blobs k "files/ann/abc" ≡ some 5)
    alike k = elim (Bool-cases (k == 1)) [
      | inl at_one ↦ inr (rw at_one refl)
      | inr first_one ↦ inl (rw first_one refl)
    ]

check_and_migrate-IsHeld_example :
    IsHeld "files/ann/abc" 5 (check_and_migrate minio (pos 80) depot).blobs
check_and_migrate-IsHeld_example =
    check_and_migrate-IsHeld "files/ann/abc" 5 minio (λ n i. ((λ same. (refl, inl refl)), (tt, tt)))
      (pos 80) depot depot-IsHeld

upload_file_with_replication-Written_example :
    Written minio "k" 9
      (pos 10)
      depot
      (upload_file_with_replication minio round_robin 2 "k" 9 (pos 10) depot)
upload_file_with_replication-Written_example =
    upload_file_with_replication-Written minio "k" 9 round_robin 2 (pos 10) depot

-- With one node available both replicas go to it, and its size counts twice.
abbrev half_down : Depot ℕ
half_down = record depot {
  cluster = record { nodes = node_named "a" true ∷ node_named "b" false ∷ []; current_idx = 0 };
}

counted_twice :
    (upload_file_with_replication minio round_robin 2 "k" 9 (pos 10) half_down).1.cluster.nodes
    ≡ record (node_named "a" true) { used_size = pos 20 } ∷ node_named "b" false ∷ []
unfolding upload_file_with_replication upload_to put_object replicate_on select_node
    select_round_robin round_robin_from update_used_size ◌+ℤ◌
counted_twice = refl

-- The second node gets its turn.
select_round_robin-serves_example :
    (k : ℕ) × (k < 2) × ((select_round_robin (turns k depot.cluster)).0 ≡ chosen 1)
select_round_robin-serves_example =
    select_round_robin-serves depot.cluster 1 (omega arith) (omega arith) refl
