-- ===== src/Cluster.antt =====
-- The storage cluster (internal/storage/storage_cluster.go): the choice of a node, and the
-- fields of the nodes that it reads. A pointer to a node is its index.
pub mod Turns
pub mod Fairness
use cloud_vault.Base.{
  Bool, List, Option, String, [], get_elem?, if◌then◌else◌, length, none, some, suc, zero, ℕ, ◌%◌,
  ◌&&◌, ◌+◌, ◌==◌, ◌||◌, ◌∷◌,
}
use cloud_vault.Base.Int.{eq_ℤ, ltb_ℤ, negsuc, ℤ, ◌+ℤ◌}

-- `StorageNode`, with the fields of config.MinioClusterConfig that the choice reads
pub record StorageNode : Type 0 where
  pub name : String
  pub available : Bool
  pub used_size : ℤ
  pub total_size : ℤ

-- `StorageCluster`
pub record StorageCluster : Type 0 where
  pub nodes : List StorageNode
  pub current_idx : ℕ

-- `LoadBalanceStrategy`; any other text selects by turns too.
pub data Strategy : Type 0 where
  round_robin least_conn by_hash : Strategy
  other_strategy : String → Strategy

-- A chosen node, the error "no available storage nodes", or an index out of range.
pub data Choice : Type 0 where
  chosen : ℕ → Choice
  no_nodes : Choice
  panics : Choice

-- The loop of `selectRoundRobin`, with the rounds that are left: the choice and `currentIdx` after
-- it.
unfoldable pub round_robin_from : ℕ → List StorageNode → ℕ → Choice × ℕ
round_robin_from zero nodes idx = (no_nodes, idx)
round_robin_from (suc rounds) nodes idx =
    let next : ℕ = (idx + 1) % length nodes in
    let rest : Choice × ℕ = round_robin_from rounds nodes next in
    elim (get_elem? nodes idx) [
      | none ↦ (panics, idx)
      | some node ↦ if node.available then (chosen idx, next) else rest
    ]

-- `selectRoundRobin`
unfoldable pub select_round_robin : StorageCluster → Choice × StorageCluster
unfolding round_robin_from
select_round_robin c =
    let (choice, idx) = round_robin_from (length c.nodes) c.nodes c.current_idx in
    (choice, record c { current_idx = idx })

abbrev pub choice_of : Option ℕ → Choice
choice_of none = no_nodes
choice_of (some i) = chosen i

-- The loop of `selectLeastConn` from the node of index `i` on: `-1` stands for no size yet.
unfoldable pub least_conn_from : List StorageNode → ℕ → ℤ → Option ℕ → Option ℕ
least_conn_from [] i least selected = selected
least_conn_from (node ∷ nodes) i least selected =
    let better : Bool = node.available && (eq_ℤ least (negsuc 0) || ltb_ℤ node.used_size least) in
    least_conn_from nodes (i + 1) (if better then node.used_size else least)
      (if better then some i else selected)

-- `selectLeastConn`
unfoldable pub select_least_conn : StorageCluster → Choice
unfolding least_conn_from
select_least_conn c = choice_of (least_conn_from c.nodes 0 (negsuc 0) none)

-- `SelectNode`
unfoldable pub select_node : Strategy → StorageCluster → Choice × StorageCluster
unfolding select_round_robin select_least_conn
select_node strategy c = if length c.nodes == 0 then (no_nodes, c) else (elim strategy [
  | round_robin ↦ select_round_robin c
  | least_conn ↦ (select_least_conn c, c)
  | by_hash ↦ select_round_robin c
  | other_strategy _ ↦ select_round_robin c
])

abbrev pub set_at : List StorageNode → ℕ → (StorageNode → StorageNode) → List StorageNode
set_at [] i f = []
set_at (n ∷ ns) zero f = f n ∷ ns
set_at (n ∷ ns) (suc i) f = n ∷ set_at ns i f

-- `SetAvailable`
unfoldable pub set_available : ℕ → Bool → StorageCluster → StorageCluster
set_available i b c = record c { nodes = set_at c.nodes i (λ n. record n { available = b }) }

-- `UpdateUsedSize`
unfoldable pub update_used_size : ℕ → ℤ → StorageCluster → StorageCluster
update_used_size i delta c = record c {
  nodes = set_at c.nodes i (λ n. record n { used_size = n.used_size +ℤ delta });
}
