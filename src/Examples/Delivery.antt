-- ===== src/Examples/Delivery.antt =====
-- The theorems on commands at an example command and consumer.
use trustguard_rag.Prelude.{
  ℕ, ◌≤◌, ◌≡◌, ◌≢◌, refl, Bool, true, Option, some, none, [], ◌∷◌, arith, inl, ◌⊎◌,
}
use trustguard_rag.Store.Rows.{ingest_document}
use trustguard_rag.Worker.Messages.{
  CommandMessage, Envelope, routing_key, to_envelope, from_envelope, from_bytes, to_bytes,
}
use trustguard_rag.Worker.Handlers.{Outcome, busy, retryable, failed}
use trustguard_rag.Worker.Consumer.{ConsumerSettings, on_message}
use trustguard_rag.Worker.Redelivery.{
  on_message-Delivers, Delivers, deliver, deliver_failing, deliver_ends,
}
use trustguard_rag.Worker.RoundTrip.{from_bytes-to_bytes}

abbrev settings : ConsumerSettings
settings = record { rabbitmq_consumer_max_retries = 3; rabbitmq_retry_delays = 1000 ∷ 5000 ∷ [] }

abbrev command : CommandMessage
command = record {
  event_id = "event";
  event_type = ingest_document;
  aggregate_id = "job";
  payload = [];
  schema_version = 1;
}

abbrev always : Outcome → ℕ → Outcome
always o n = o

abbrev loads : Envelope → Option Envelope
loads = some

on_message-Delivers_example :
    Delivers settings
      (on_message settings (from_bytes loads (to_envelope command)) 1 (λ c. retryable))
on_message-Delivers_example =
    on_message-Delivers loads settings (to_envelope command) 1 (λ c. retryable) (omega arith)

fails : (n : ℕ) → (always retryable n ≡ retryable) ⊎ (always retryable n ≡ failed)
fails n = inl refl

deliver_failing_example : deliver settings command 4 0 0 (always retryable) ≡ some (4, true)
deliver_failing_example =
    deliver_failing settings command (always retryable) fails 4 0 0 (omega arith) (omega arith)

free : (n : ℕ) → always failed n ≢ busy
free n e = cc e

deliver_ends_example :
    (m : ℕ) × (d : Bool) × (deliver settings command 4 0 0 (always failed) ≡ some (m, d)) × (m ≤ 4)
deliver_ends_example =
    deliver_ends settings command (always failed) free 4 0 0 (omega arith) (omega arith)

-- A command of a later version is refused.
abbrev later : CommandMessage
later = record command { schema_version = 2 }

abbrev dumps : Envelope → Envelope
dumps e = e

read : from_bytes loads (to_envelope command) ≡ some command
unfolding from_bytes to_envelope from_envelope routing_key
read = refl

from_bytes-to_bytes_example :
    (from_bytes loads (to_bytes dumps later) ≡ none)
    × (from_bytes loads (to_bytes dumps command) ≡ some command)
from_bytes-to_bytes_example =
    from_bytes-to_bytes dumps loads (λ e. refl) (to_envelope command) later command read
