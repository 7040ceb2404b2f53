-- ===== src/Tests/Messages.antt =====
-- The topology of the queues at a concrete broker.
use cloud_vault.Base.{Bool, [], false, refl, true, ℕ, ◌∷◌, ◌≡◌}
use cloud_vault.Base.Int.{pos}
use cloud_vault.Queues.{
  Publishing, Topology, declare_all, declare_topology, publish_activity, publish_dlq, publish_retry,
  publish_task,
}
use cloud_vault.Queues.Routes.{declare_topology-routes, expired_route, nothing_declared, routes}

-- The broker accepts every call.
abbrev steady : ℕ → Bool
steady n = false

abbrev declared_now : Topology
declared_now = (declare_topology steady nothing_declared).1

declare_topology-routes_example :
    let takes = λ (m : Publishing). true in
    (routes declared_now (publish_task takes "task" []).1 ≡ ("download.queue" ∷ []) ∷ [])
    × (routes declared_now (publish_retry takes "task" (pos 10000000000) []).1
        ≡ ("download.retry.queue" ∷ []) ∷ [])
    × (routes declared_now (publish_dlq takes "task" []).1 ≡ ("download.dlq.queue" ∷ []) ∷ [])
    × (routes declared_now (publish_activity takes "task" []).1 ≡ ("activity.queue" ∷ []) ∷ [])
    × (expired_route declared_now "download.retry.queue" ≡ "download.queue" ∷ [])
unfolding declare_topology declare_all
declare_topology-routes_example = declare_topology-routes steady "task" (pos 10000000000) refl
