-- ===== src/Queues.antt =====
-- The exchanges, queues and messages in RabbitMQ: internal/mq/rabbitmq.go without the connection.
--
-- `Topology` is what was declared at the broker; every exchange is direct and durable. Declaring the
-- same again changes nothing. Which call of the channel fails is a parameter, by its number. A
-- direct exchange routes a message to the queues bound to it with the message's key, and a message
-- that expires in a queue with a dead-letter exchange is published there, as RabbitMQ documents.
pub mod Routes
use cloud_vault.Base.{
  Bool, List, Option, String, [], any, false, if◌then◌else◌, none, some, str_eq, true, ℕ, ◌&&◌,
  ◌++◌, ◌+◌, ◌/◌, ◌∷◌,
}
use cloud_vault.Base.Int.{negsuc, pos, ℤ}

pub record Binding : Type 0 where
  pub queue : String
  pub key : String
  pub exchange : String

pub record QueueRow : Type 0 where
  pub name : String
  -- "x-dead-letter-exchange" and "x-dead-letter-routing-key"
  pub dead_letter : Option (String × String)

pub record Topology : Type 0 where
  pub exchanges : List String
  pub queues : List QueueRow
  pub bindings : List Binding

-- amqp.Publishing with where it goes; an expiration is in milliseconds.
pub record Publishing : Type 0 where
  pub exchange : String
  pub key : String
  pub body : String
  pub expiration : Option ℕ

-- `ExchangeDeclare`, `QueueDeclare` and `QueueBind`
pub data Declaration : Type 0 where
  exchange_declare : String → Declaration
  queue_declare : String → Option (String × String) → Declaration
  queue_bind : String → String → String → Declaration

abbrev pub is_binding : String → String → String → Binding → Bool
is_binding queue key exchange b =
    str_eq b.queue queue && str_eq b.key key && str_eq b.exchange exchange

unfoldable pub declare : Declaration → Topology → Topology
declare (exchange_declare name) t =
    if any (str_eq name) t.exchanges then t else record t { exchanges = t.exchanges ++ name ∷ [] }
declare (queue_declare name letter) t =
    if any (λ q. str_eq name q.name) t.queues
    then t
    else record t { queues = t.queues ++ record { name = name; dead_letter = letter } ∷ [] }
declare (queue_bind queue key exchange) t =
    if any (is_binding queue key exchange) t.bindings then t else record t {
      bindings = t.bindings ++ record { queue = queue; key = key; exchange = exchange } ∷ [];
    }

abbrev pub topology : List Declaration
topology =
    exchange_declare "download.exchange"
    ∷ exchange_declare "download.retry.exchange"
    ∷ exchange_declare "download.dlq.exchange"
    ∷ exchange_declare "activity.exchange"
    ∷ queue_declare "download.queue" none
    ∷ queue_declare "download.retry.queue" (some ("download.exchange", "download"))
    ∷ queue_declare "download.dlq.queue" none
    ∷ queue_declare "activity.queue" none
    ∷ queue_bind "download.queue" "download" "download.exchange"
    ∷ queue_bind "download.retry.queue" "download.retry" "download.retry.exchange"
    ∷ queue_bind "download.dlq.queue" "download.dlq" "download.dlq.exchange"
    ∷ queue_bind "activity.queue" "activity" "activity.exchange"
    ∷ []

-- The calls of the channel one after the other; the first error ends them.
unfoldable pub declare_all : (ℕ → Bool) → ℕ → List Declaration → Topology → Bool × Topology
declare_all fails n [] t = (true, t)
declare_all fails n (d ∷ ds) t =
    let rest = declare_all fails (n + 1) ds (declare d t) in if fails n then (false, t) else rest

-- `DeclareTopology`: whether it returned nil.
unfoldable pub declare_topology : (ℕ → Bool) → Topology → Bool × Topology
declare_topology fails t = declare_all fails 0 topology t

-- `publish`: whether it returned nil; `accepts` says whether the channel takes the message.
unfoldable pub publish_to :
    (Publishing → Bool)
    → String
    → String
    → String
    → Option ℕ
    → List Publishing
    → Bool × List Publishing
publish_to accepts exchange key body expiration sent =
    let msg : Publishing = record {
      exchange = exchange;
      key = key;
      body = body;
      expiration = expiration;
    } in
    if accepts msg then (true, sent ++ msg ∷ []) else (false, sent)

unfoldable pub publish_task :
    (Publishing → Bool) → String → List Publishing → Bool × List Publishing
publish_task accepts body sent = publish_to accepts "download.exchange" "download" body none sent

-- `delay.Milliseconds()` of a delay in nanoseconds, 0 for a negative one
abbrev pub expiration_of : ℤ → ℕ
expiration_of (pos n) = n / 1000000
expiration_of (negsuc n) = 0

unfoldable pub publish_retry :
    (Publishing → Bool) → String → ℤ → List Publishing → Bool × List Publishing
publish_retry accepts body delay sent =
    publish_to accepts "download.retry.exchange" "download.retry" body (some (expiration_of delay))
      sent

unfoldable pub publish_dlq : (Publishing → Bool) → String → List Publishing → Bool × List Publishing
publish_dlq accepts body sent =
    publish_to accepts "download.dlq.exchange" "download.dlq" body none sent

unfoldable pub publish_activity :
    (Publishing → Bool) → String → List Publishing → Bool × List Publishing
publish_activity accepts body sent =
    publish_to accepts "activity.exchange" "activity" body none sent
