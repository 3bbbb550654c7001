-- ===== src/Worker/Messages.antt =====
-- app/workers/messages.py: the command envelope and the routing of commands.
use trustguard_rag.Prelude.{
  ℕ, ◌==◌, Bool, false, Option, none, some, List, [], ◌∷◌, String, str_eq, is_some, if◌then◌else◌,
}
use trustguard_rag.Store.Values.{Value, Dict, text, str}
use trustguard_rag.Store.Rows.{
  OutboxEvent, ingest_document, reviewed_ingest_document, cleanup_document, cleanup_job_staging,
  resolve_conflict, run_crawler,
}

pub record CommandMessage : Type 0 where
  pub event_id : String
  pub event_type : String
  pub aggregate_id : String
  pub payload : Dict
  pub schema_version : ℕ

-- `ROUTING_KEYS.get(event_type)`.
unfoldable pub routing_key : String → Option String
routing_key event_type =
    if str_eq event_type ingest_document
    then some "rag.ingest"
    else if str_eq event_type reviewed_ingest_document
    then some "rag.ingest.reviewed"
    else if str_eq event_type cleanup_document
    then some "rag.cleanup"
    else if str_eq event_type cleanup_job_staging
    then some "rag.cleanup"
    else if str_eq event_type resolve_conflict
    then some "rag.resolve"
    else if str_eq event_type run_crawler
    then some "rag.crawl"
    else none

-- `sorted(set(ROUTING_KEYS.values()))`.
abbrev pub routing_keys : List String
routing_keys =
    "rag.cleanup" ∷ "rag.crawl" ∷ "rag.ingest" ∷ "rag.ingest.reviewed" ∷ "rag.resolve" ∷ []

-- The JSON object of a message's body: `none` for a key that is absent. `payload` is `none` also
-- where its value is false, and the body's bytes are the object's JSON text.
pub record Envelope : Type 0 where
  pub event_id : Option Value
  pub event_type : Option Value
  pub aggregate_id : Option Value
  pub payload : Option Dict
  pub schema_version : Option ℕ

-- The object that `to_bytes` writes.
unfoldable pub to_envelope : CommandMessage → Envelope
to_envelope c = record {
  event_id = some (text c.event_id);
  event_type = some (text c.event_type);
  aggregate_id = some (text c.aggregate_id);
  payload = some c.payload;
  schema_version = some c.schema_version;
}

abbrev pub is_version : ℕ → Option ℕ → Bool
is_version n none = false
is_version n (some m) = m == n

-- `dict(value.get("payload") or {})`.
abbrev pub payload_of : Option Dict → Dict
payload_of none = []
payload_of (some d) = d

-- The command, once the three keys that must be there are; `none` is a `KeyError`.
abbrev pub command_of : Option Value → Option Value → Option Value → Dict → Option CommandMessage
command_of (some i) (some t) (some a) payload =
    if is_some (routing_key (str t))
    then some (record {
      event_id = str i;
      event_type = str t;
      aggregate_id = str a;
      payload = payload;
      schema_version = 1;
    })
    else none
command_of _ _ _ payload = none

-- `from_bytes` on the decoded object; `none` is an exception.
unfoldable pub from_envelope : Envelope → Option CommandMessage
unfolding routing_key
from_envelope e =
    if is_version 1 e.schema_version
    then command_of e.event_id e.event_type e.aggregate_id (payload_of e.payload)
    else none

-- `to_bytes` and `from_bytes`, where `dumps` and `loads` write and read the JSON text of an object;
-- `loads` is `none` for what is no object of this form.
module _ {Bytes : Type 0} where
  unfoldable pub to_bytes : (Envelope → Bytes) → CommandMessage → Bytes
  unfolding to_envelope
  to_bytes dumps c = dumps (to_envelope c)

  unfoldable pub from_bytes : (Bytes → Option Envelope) → Bytes → Option CommandMessage
  unfolding from_envelope
  from_bytes loads body = elim (loads body) [ none ↦ none | some e ↦ from_envelope e ]

-- The command that the relay makes of an event (app/workers/publisher.py).
unfoldable pub command_of_event : OutboxEvent → CommandMessage
command_of_event event = record {
  event_id = event.id;
  event_type = event.event_type;
  aggregate_id = event.aggregate_id;
  payload = event.payload;
  schema_version = 1;
}
