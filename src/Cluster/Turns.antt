-- ===== src/Cluster/Turns.antt =====
-- A choice is a node that is available, and the turn stays within the nodes.
use native.Mathlib.Nat.{mod-lt}
use cloud_vault.Base.{
  Bool, List, [], arith, false, get_elem?, length, none, refl, some, suc, true, zero, ℕ, ◌%◌, ◌+◌,
  ◌<◌, ◌∷◌, ◌≡◌,
}
use cloud_vault.Cluster.{
  Choice, StorageCluster, StorageNode, chosen, no_nodes, panics, round_robin_from,
  select_round_robin,
}

-- There is a node of the index, and it is available.
abbrev pub is_up : List StorageNode → ℕ → Bool
is_up nodes i = elim (get_elem? nodes i) [ none ↦ false | some n ↦ n.available ]

-- What a choice promises of the nodes: there is no index out of range.
abbrev pub IsGood : List StorageNode → Choice → Type 0
IsGood nodes (chosen i) = is_up nodes i ≡ true
IsGood nodes no_nodes = Unit
IsGood nodes panics = ⊥

pub get_elem?-some :
    (nodes : List StorageNode) (i : ℕ)
    → i < length nodes
    → (n : StorageNode) × (get_elem? nodes i ≡ some n)
get_elem?-some [] i h = elim h [ ]
get_elem?-some (n ∷ ns) zero h = (n, refl)
get_elem?-some (n ∷ ns) (suc i) h = get_elem?-some ns i (omega arith)

pub round_robin_from-IsGood :
    (rounds : ℕ) (nodes : List StorageNode) (idx : ℕ)
    → idx < length nodes
    → IsGood nodes (round_robin_from rounds nodes idx).0
      × ((round_robin_from rounds nodes idx).1 < length nodes)
unfolding round_robin_from
round_robin_from-IsGood zero nodes idx h = (tt, h)
round_robin_from-IsGood (suc rounds) nodes idx h =
    let found = get_elem?-some nodes idx h in
    let in_range : (idx + 1) % length nodes < length nodes = mod-lt (idx + 1) (omega arith) in
    ground (
      arith,
      found.1,
      in_range,
      round_robin_from-IsGood rounds nodes ((idx + 1) % length nodes) in_range,
    )

-- With the turn within the nodes, `selectRoundRobin` reads no index out of range, chooses only a
-- node that is available, and leaves the nodes as they are and the turn within them.
pub select_round_robin-IsGood :
    (c : StorageCluster)
    → c.current_idx < length c.nodes
    → IsGood c.nodes (select_round_robin c).0
      × ((select_round_robin c).1.nodes ≡ c.nodes)
      × ((select_round_robin c).1.current_idx < length c.nodes)
unfolding select_round_robin
select_round_robin-IsGood c h =
    let (good, turn) = round_robin_from-IsGood (length c.nodes) c.nodes c.current_idx h in
    (good, refl, turn)
