-- ===== src/Worker/RoundTrip.antt =====
-- app/workers/messages.py: a command that is written and read again.
use trustguard_rag.Prelude.{
  ◌≡◌, refl, ◌∙◌, ℕ, Bool, true, Option, none, some, is_some, arith, ◌&&◌, ◌==◌, if◌then◌else◌,
  option_cases, if_elim,
}
use trustguard_rag.Store.Values.{Value, Dict}
use trustguard_rag.Worker.Messages.{
  CommandMessage, Envelope, routing_key, to_envelope, from_envelope, command_of, payload_of,
  is_version, to_bytes, from_bytes,
}

-- The commands that the program reads.
abbrev pub is_readable : CommandMessage → Bool
is_readable c = c.schema_version == 1 && is_some (routing_key c.event_type)

command_of-readable :
    (i t a : Option Value) (payload : Dict) (c : CommandMessage)
    → command_of i t a payload ≡ some c
    → is_readable c ≡ true
command_of-readable (some i) (some t) (some a) payload c e = ground (arith, e)
command_of-readable none t a payload c e = cc e
command_of-readable (some i) none a payload c e = cc e
command_of-readable (some i) (some t) none payload c e = cc e

from_envelope-readable :
    (e : Envelope) (c : CommandMessage) → from_envelope e ≡ some c → is_readable c ≡ true
unfolding from_envelope
from_envelope-readable e c =
    if_elim (λ (o : Option CommandMessage). o ≡ some c → is_readable c ≡ true)
      (is_version 1 e.schema_version)
      (command_of-readable e.event_id e.event_type e.aggregate_id (payload_of e.payload) c)
      (λ h. cc h)

same_version :
    (c : CommandMessage) (n : ℕ) → c.schema_version ≡ n → record c { schema_version = n } ≡ c
same_version c n e = rw e refl

from_envelope-to_envelope :
    (c : CommandMessage) → from_envelope (to_envelope c) ≡ (if is_readable c then some c else none)
unfolding from_envelope to_envelope
from_envelope-to_envelope c = ground (arith, same_version c 1)

module _ {Bytes : Type 0} (loads : Bytes → Option Envelope) where
  pub from_bytes-readable :
      (body : Bytes) (c : CommandMessage) → from_bytes loads body ≡ some c → is_readable c ≡ true
  unfolding from_bytes
  from_bytes-readable body c =
      option_cases (λ (o : Option CommandMessage). o ≡ some c → is_readable c ≡ true) (loads body)
        (λ _ h. cc h) (λ e _. from_envelope-readable e c)

module _ {Bytes : Type 0} (dumps : Envelope → Bytes) (loads : Bytes → Option Envelope)
    (written : (e : Envelope) → loads (dumps e) ≡ some e) where
  read_again :
      (k : CommandMessage)
      → from_bytes loads (to_bytes dumps k) ≡ (if is_readable k then some k else none)
  unfolding from_bytes to_bytes
  read_again k = ground (arith, written (to_envelope k), from_envelope-to_envelope k)

  -- A command that is written is read as it was, if its schema version is 1 and its event type has a
  -- routing key, and is refused otherwise; and every command that is read from a body, whoever wrote
  -- it, is one that is written and read again without a change, as a retry does. Of JSON it is taken
  -- that the text of an object is read as that object.
  pub from_bytes-to_bytes :
      (body : Bytes) (c d : CommandMessage)
      → from_bytes loads body ≡ some d
      → (from_bytes loads (to_bytes dumps c)
          ≡ (if c.schema_version == 1 && is_some (routing_key c.event_type) then some c else none))
        × (from_bytes loads (to_bytes dumps d) ≡ some d)
  from_bytes-to_bytes body c d h =
      (read_again c, read_again d ∙ rw (from_bytes-readable loads body d h) refl)
