-- ===== src/Queues/Routes.antt =====
-- Where the messages go.
use cloud_vault.Base.{
  Bool, Bool-cases, List, String, [], arith, filter, find?, inl, inr, map, none, refl, some, str_eq,
  true, ℕ, ◌&&◌, ◌+◌, ◌∷◌, ◌≡◌,
}
use cloud_vault.Base.Int.{ℤ}
use cloud_vault.Queues.{
  Binding, Declaration, Publishing, QueueRow, Topology, declare, declare_all, declare_topology,
  publish_activity, publish_dlq, publish_retry, publish_task, publish_to, topology,
}

-- The queues that a direct exchange routes a key to
unfoldable pub route : Topology → String → String → List String
route t exchange key =
    map (λ (b : Binding). b.queue)
      (filter (λ (b : Binding). str_eq b.exchange exchange && str_eq b.key key) t.bindings)

-- The queues that a message reaches which expires in a queue
unfoldable pub expired_route : Topology → String → List String
expired_route t name = elim (find? (λ (q : QueueRow). str_eq q.name name) t.queues) [
  | none ↦ []
  | some q ↦ elim q.dead_letter [ none ↦ [] | some l ↦ route t l.0 l.1 ]
]

-- The queues of each message
abbrev pub routes : Topology → List Publishing → List (List String)
routes t = map (λ (m : Publishing). route t m.exchange m.key)

abbrev pub nothing_declared : Topology
nothing_declared = record { exchanges = []; queues = []; bindings = [] }

abbrev declared : List Declaration → Topology → Topology
declared [] t = t
declared (d ∷ ds) t = declared ds (declare d t)

declare_all-declared :
    (fails : ℕ → Bool) (n : ℕ) (ds : List Declaration) (t : Topology)
    → (declare_all fails n ds t).0 ≡ true
    → (declare_all fails n ds t).1 ≡ declared ds t
unfolding declare_all
declare_all-declared fails n [] t h = refl
declare_all-declared fails n (d ∷ ds) t h = elim (Bool-cases (fails n)) [
  | inl down ↦ ground (arith, rw down at h)
  | inr up ↦ rw up (declare_all-declared fails (n + 1) ds (declare d t) (rw up at h))
]

-- The topology as a whole
whole : declared topology nothing_declared ≡ record {
  exchanges =
      "download.exchange" ∷ "download.retry.exchange" ∷ "download.dlq.exchange"
      ∷ "activity.exchange" ∷ [];
  queues =
      record { name = "download.queue"; dead_letter = none }
      ∷ record {
        name = "download.retry.queue";
        dead_letter = some ("download.exchange", "download");
      }
      ∷ record { name = "download.dlq.queue"; dead_letter = none }
      ∷ record { name = "activity.queue"; dead_letter = none }
      ∷ [];
  bindings =
      record { queue = "download.queue"; key = "download"; exchange = "download.exchange" }
      ∷ record {
        queue = "download.retry.queue";
        key = "download.retry";
        exchange = "download.retry.exchange";
      }
      ∷ record {
        queue = "download.dlq.queue";
        key = "download.dlq";
        exchange = "download.dlq.exchange";
      }
      ∷ record { queue = "activity.queue"; key = "activity"; exchange = "activity.exchange" }
      ∷ [];
}
unfolding declare
whole = refl

-- Once `DeclareTopology` has returned nil at a broker where nothing was declared, a published task,
-- retry, dead letter and activity each reach one queue, their own; and a retry that expires reaches
-- the queue of the tasks again.
pub declare_topology-routes :
    (fails : ℕ → Bool) (body : String) (delay : ℤ)
    → (declare_topology fails nothing_declared).0 ≡ true
    → let t = (declare_topology fails nothing_declared).1 in
      let takes = λ (m : Publishing). true in
      (routes t (publish_task takes body []).1 ≡ ("download.queue" ∷ []) ∷ [])
      × (routes t (publish_retry takes body delay []).1 ≡ ("download.retry.queue" ∷ []) ∷ [])
      × (routes t (publish_dlq takes body []).1 ≡ ("download.dlq.queue" ∷ []) ∷ [])
      × (routes t (publish_activity takes body []).1 ≡ ("activity.queue" ∷ []) ∷ [])
      × (expired_route t "download.retry.queue" ≡ "download.queue" ∷ [])
unfolding declare_topology route expired_route publish_task publish_retry publish_dlq
    publish_activity publish_to
declare_topology-routes fails body delay h =
    rw (declare_all-declared fails 0 topology nothing_declared h, whole)
      (refl, refl, refl, refl, refl)
