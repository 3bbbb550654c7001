-- ===== src/Worker/Consumer.antt =====
-- app/workers/consumer.py: what the consumer does with a delivery, and the topology of
-- app/stores/rabbitmq.py that its retries go through.
use trustguard_rag.Prelude.{
  ℕ, zero, suc, ◌+◌, ◌-◌, min, Bool, false, Option, none, some, List, [], ◌∷◌, String, leb, length,
  contains, ◌&&◌, if◌then◌else◌,
}
use trustguard_rag.Worker.Messages.{CommandMessage, routing_key, routing_keys}
use trustguard_rag.Worker.Handlers.{Outcome, done, busy}

pub record ConsumerSettings : Type 0 where
  pub rabbitmq_consumer_max_retries : ℕ
  pub rabbitmq_retry_delays : List ℕ

-- A queue of commands: that of a routing key, or its n-th retry queue.
pub data Queue : Type 0 where
  command_queue : String → Queue
  retry_queue : String → ℕ → Queue

-- What a delivery leads to, in order: the command published with a retry count, the body published
-- to the dead letters, the delivery acknowledged.
pub data Action : Type 0 where
  publish : Queue → ℕ → Action
  publish_dead : Action
  ack : Action

-- `ROUTING_KEYS[command.event_type]`; a command that was parsed has a key.
unfoldable pub key_of : CommandMessage → String
key_of command = elim (routing_key command.event_type) [ none ↦ "" | some k ↦ k ]

-- `min(retry_count, len(delays) - 1) + 1`.
unfoldable pub retry_index : ℕ → List ℕ → ℕ
retry_index retry_count delays = min retry_count (length delays - 1) + 1

-- The delivery of a command whose handler ended so.
unfoldable pub settle : ConsumerSettings → CommandMessage → ℕ → Outcome → List Action
settle s command retry_count done = ack ∷ []
settle s command retry_count busy =
    publish (retry_queue (key_of command) (length s.rabbitmq_retry_delays)) retry_count ∷ ack ∷ []
settle s command retry_count _ =
    if leb s.rabbitmq_consumer_max_retries retry_count
    then publish_dead ∷ ack ∷ []
    else publish (retry_queue (key_of command) (retry_index retry_count s.rabbitmq_retry_delays))
        (suc retry_count)
      ∷ ack
      ∷ []

-- `on_message`: a body that is no command is a dead letter.
unfoldable pub on_message :
    ConsumerSettings → Option CommandMessage → ℕ → (CommandMessage → Outcome) → List Action
on_message s none retry_count handle = publish_dead ∷ ack ∷ []
on_message s (some command) retry_count handle = settle s command retry_count (handle command)

-- The queues that `declare_topology` declares: for each routing key that of the key, and `retry.1`
-- up to `retry.n`.
unfoldable pub is_declared : ConsumerSettings → Queue → Bool
is_declared s (command_queue k) = contains k routing_keys
is_declared s (retry_queue k zero) = false
is_declared s (retry_queue k (suc i)) =
    contains k routing_keys && leb (suc i) (length s.rabbitmq_retry_delays)
