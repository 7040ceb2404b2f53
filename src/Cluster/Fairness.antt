-- ===== src/Cluster/Fairness.antt =====
-- Every node that is available gets its turn.
use native.Mathlib.Nat.{mod-eq_of_lt, mod-lt, mod_self}
use cloud_vault.Base.{
  Bool-cases, List, ap, arith, false, get_elem?, inl, inr, leb, length, refl, some, subst, suc, sym,
  true, zero, ℕ, ◌%◌, ◌+◌, ◌-◌, ◌<◌, ◌∙◌, ◌≡◌, ◌≤◌, ◌⊎◌,
}
use cloud_vault.Cluster.{StorageCluster, StorageNode, chosen, round_robin_from, select_round_robin}
use cloud_vault.Cluster.Turns.{get_elem?-some, is_up, round_robin_from-IsGood}

-- The index `d` places after another, in a circle of `n`
abbrev after : ℕ → ℕ → ℕ → ℕ
after n zero idx = idx
after n (suc d) idx = after n d ((idx + 1) % n)

after-within : (n d idx : ℕ) → idx + d < n → after n d idx ≡ idx + d
after-within n zero idx h = omega arith
after-within n (suc d) idx h =
    let next : (idx + 1) % n ≡ idx + 1 = mod-eq_of_lt (omega arith) in
    rw next (omega (arith, after-within n d (idx + 1) (omega arith)))

-- From an index behind, through the end of the circle
after_round :
    (n k idx j : ℕ) → idx + k + 1 ≡ n → j < idx → (d : ℕ) × (d + idx ≡ n + j) × (after n d idx ≡ j)
after_round n zero idx j e h =
    let full : idx + 1 ≡ n = omega arith in
    let next : (idx + 1) % n ≡ 0 = ap (λ x. x % n) full ∙ mod_self n in
    (suc j, omega arith, rw next (omega (arith, after-within n j 0 (omega arith))))
after_round n (suc k) idx j e h =
    let next : (idx + 1) % n ≡ idx + 1 = mod-eq_of_lt (omega arith) in
    let (d, sum, reached) = after_round n k (idx + 1) j (omega arith) (omega arith) in
    (suc d, omega arith, ap (after n d) next ∙ reached)

-- Every index is less than `n` places away.
after_some : (n idx j : ℕ) → idx < n → j < n → (d : ℕ) × (d < n) × (after n d idx ≡ j)
after_some n idx j h k = elim (Bool-cases (leb idx j)) [
  | inl ahead ↦
      let le : idx ≤ j = ground arith in
      (j - idx, omega arith, omega (arith, after-within n (j - idx) idx (omega arith)))
  | inr behind ↦
      let less : j < idx = ground arith in
      let full : idx + (n - idx - 1) + 1 ≡ n = omega arith in
      let (d, sum, reached) = after_round n (n - idx - 1) idx j full less in
      (d, omega arith, reached)
]

is_up-some :
    (nodes : List StorageNode) (i : ℕ) (n : StorageNode)
    → get_elem? nodes i ≡ some n
    → is_up nodes i ≡ true
    → n.available ≡ true
is_up-some nodes i n e h = rw (e, is_up) at h

module _ (rounds : ℕ) (nodes : List StorageNode) (idx : ℕ) (n : StorageNode)
    (found : get_elem? nodes idx ≡ some n) where
  step_up :
      n.available ≡ true
      → round_robin_from (suc rounds) nodes idx ≡ (chosen idx, (idx + 1) % length nodes)
  unfolding round_robin_from
  step_up up = rw (found, round_robin_from) (rw up refl)

  step_down :
      n.available ≡ false
      → round_robin_from (suc rounds) nodes idx
        ≡ round_robin_from rounds nodes ((idx + 1) % length nodes)
  unfolding round_robin_from
  step_down down = rw (found, round_robin_from) (rw down refl)

-- A choice by turns takes the node, or comes nearer to it.
round_robin_from-nearer :
    (rounds : ℕ) (nodes : List StorageNode) (idx j d : ℕ)
    → idx < length nodes
    → is_up nodes j ≡ true
    → after (length nodes) d idx ≡ j
    → d < rounds
    → ((round_robin_from rounds nodes idx).0 ≡ chosen j)
      ⊎ ((e : ℕ) × (e < d) × (after (length nodes) e (round_robin_from rounds nodes idx).1 ≡ j))
round_robin_from-nearer zero nodes idx j d h up at_j lt = absurd (omega arith)
round_robin_from-nearer (suc rounds) nodes idx j zero h up at_j lt =
    let found = get_elem?-some nodes idx h in
    let here : is_up nodes idx ≡ true = subst (λ i. is_up nodes i ≡ true) (sym at_j) up in
    let its : found.0.available ≡ true = is_up-some nodes idx found.0 found.1 here in
    inl (rw (step_up rounds nodes idx found.0 found.1 its) (ap chosen at_j))
round_robin_from-nearer (suc rounds) nodes idx j (suc d) h up at_j lt =
    let found = get_elem?-some nodes idx h in
    let in_range : (idx + 1) % length nodes < length nodes = mod-lt (idx + 1) (omega arith) in
    elim (Bool-cases found.0.available) [
      | inl its ↦ rw (step_up rounds nodes idx found.0 found.1 its) (inr (d, omega arith, at_j))
      | inr down ↦
          rw (step_down rounds nodes idx found.0 found.1 down)
            (elim (round_robin_from-nearer rounds nodes ((idx + 1) % length nodes) j d in_range up
              at_j (omega arith)) [
                | inl it ↦ inl it
                | inr (e, lt_d, at_e) ↦ inr (e, omega arith, at_e)
              ])
    ]

-- The cluster after a number of choices
abbrev pub turns : ℕ → StorageCluster → StorageCluster
turns zero c = c
turns (suc k) c = turns k (select_round_robin c).1

-- While the node is `d` places away or fewer, it is chosen within `d` further choices.
chosen_within :
    (b d : ℕ) (c : StorageCluster) (j : ℕ)
    → d ≤ b
    → d < length c.nodes
    → c.current_idx < length c.nodes
    → is_up c.nodes j ≡ true
    → after (length c.nodes) d c.current_idx ≡ j
    → (k : ℕ) × (k ≤ b) × ((select_round_robin (turns k c)).0 ≡ chosen j)
unfolding select_round_robin
chosen_within zero d c j le lt h up at_j =
    elim (round_robin_from-nearer (length c.nodes) c.nodes c.current_idx j d h up at_j lt) [
      | inl it ↦ (0, omega arith, it)
      | inr (e, nearer, at_e) ↦ absurd (omega arith)
    ]
chosen_within (suc b) d c j le lt h up at_j =
    let turn = (round_robin_from-IsGood (length c.nodes) c.nodes c.current_idx h).1 in
    elim (round_robin_from-nearer (length c.nodes) c.nodes c.current_idx j d h up at_j lt) [
      | inl it ↦ (0, omega arith, it)
      | inr (e, nearer, at_e) ↦
          let (k, few, it) =
            chosen_within b e (select_round_robin c).1 j (omega arith) (omega arith) turn up at_e in
          (suc k, omega arith, it)
    ]

-- Every node that is available is chosen by one of the next choices, as many as there are nodes,
-- when only choices are made meanwhile and the turn is within the nodes.
pub select_round_robin-serves :
    (c : StorageCluster) (j : ℕ)
    → c.current_idx < length c.nodes
    → j < length c.nodes
    → is_up c.nodes j ≡ true
    → (k : ℕ) × (k < length c.nodes) × ((select_round_robin (turns k c)).0 ≡ chosen j)
select_round_robin-serves c j h lt up =
    let (d, near, at_j) = after_some (length c.nodes) c.current_idx j h lt in
    let (k, few, it) = chosen_within d d c j (omega arith) near h up at_j in (k, omega arith, it)
