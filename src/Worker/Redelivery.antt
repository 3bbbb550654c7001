-- ===== src/Worker/Redelivery.antt =====
-- What the consumer's retries come to.
use trustguard_rag.Prelude.{
  if_elim, ℕ, zero, suc, ◌+◌, ◌-◌, ◌≤◌, ◌<◌, ◌≡◌, ◌≢◌, refl, ◌⊎◌, inl, inr, Bool, true, false,
  Option, none, some, List, [], ◌∷◌, ◌++◌, String, arith, leb, length, contains, is_some, str_eq,
  All, Option-cases,
}
use trustguard_rag.Worker.Messages.{CommandMessage, Envelope, routing_key, routing_keys, from_bytes}
use trustguard_rag.Worker.RoundTrip.{is_readable, from_bytes-readable}
use trustguard_rag.Store.Rows.{
  ingest_document, reviewed_ingest_document, cleanup_document, cleanup_job_staging,
  resolve_conflict, run_crawler,
}
use trustguard_rag.Worker.Handlers.{Outcome, done, busy, retryable, failed}
use trustguard_rag.Worker.Consumer.{
  ConsumerSettings, retry_queue, Action, publish, publish_dead, ack, key_of, retry_index, settle,
  on_message, is_declared,
}

-- A publication goes to a queue that the topology declares.
abbrev pub IsRouted : ConsumerSettings → Action → Type 0
IsRouted s (publish q n) = is_declared s q ≡ true
IsRouted s _ = Unit {0}

-- The key of a command that was read is one of the topology.
abbrev IsKnown : Option String → Type 0
IsKnown o = is_some o ≡ true → contains (elim o [ none ↦ "" | some k ↦ k ]) routing_keys ≡ true

routing_key-IsKnown : (event_type : String) → IsKnown (routing_key event_type)
unfolding routing_key
routing_key-IsKnown event_type =
    if_elim IsKnown (str_eq event_type ingest_document) (λ _. refl)
      (if_elim IsKnown (str_eq event_type reviewed_ingest_document) (λ _. refl)
        (if_elim IsKnown (str_eq event_type cleanup_document) (λ _. refl)
          (if_elim IsKnown (str_eq event_type cleanup_job_staging) (λ _. refl)
            (if_elim IsKnown (str_eq event_type resolve_conflict) (λ _. refl)
              (if_elim IsKnown (str_eq event_type run_crawler) (λ _. refl) (λ h. cc h))))))

key_of-declared :
    (c : CommandMessage) → is_readable c ≡ true → contains (key_of c) routing_keys ≡ true
unfolding key_of
key_of-declared c h = routing_key-IsKnown c.event_type (ground (arith, h))

retry_index_pos :
    (n : ℕ) (c : CommandMessage) (s : ConsumerSettings)
    → is_readable c ≡ true
    → 0 < length s.rabbitmq_retry_delays
    → is_declared s (retry_queue (key_of c) (retry_index n s.rabbitmq_retry_delays)) ≡ true
unfolding is_declared retry_index
retry_index_pos n c s r h = ground (arith, key_of-declared c r)

last_queue_declared :
    (c : CommandMessage) (s : ConsumerSettings)
    → is_readable c ≡ true
    → 0 < length s.rabbitmq_retry_delays
    → is_declared s (retry_queue (key_of c) (length s.rabbitmq_retry_delays)) ≡ true
unfolding is_declared
last_queue_declared c s r h = ground (arith, key_of-declared c r)

abbrev pub Delivers : ConsumerSettings → List Action → Type 0
Delivers s actions =
    (sent : List Action) × (actions ≡ sent ++ ack ∷ [])
    × (length sent ≤ 1)
    × All (λ a. a ≢ ack) sent
    × All (IsRouted s) sent

settle-Delivers :
    (s : ConsumerSettings) (c : CommandMessage) (n : ℕ) (o : Outcome)
    → is_readable c ≡ true
    → 0 < length s.rabbitmq_retry_delays
    → Delivers s (settle s c n o)
unfolding settle
settle-Delivers s c n done r h = ([], refl, omega arith, tt, tt)
settle-Delivers s c n busy r h =
    (_ ∷ [], refl, omega arith, ((λ e. cc), tt), (last_queue_declared c s r h, tt))
settle-Delivers s c n o r h =
    if_elim (Delivers s) (leb s.rabbitmq_consumer_max_retries n)
      (publish_dead ∷ [], refl, omega arith, ((λ e. cc), tt), (tt, tt))
      (_ ∷ [], refl, omega arith, ((λ e. cc), tt), (retry_index_pos n c s r h, tt))

-- With at least one retry delay, whatever body comes in and however the handler of its command ends,
-- the delivery is acknowledged once, after at most one publication, and a publication goes to the
-- dead letters or to a queue that the topology declares for one of the routing keys.
pub on_message-Delivers :
    {Bytes : Type 0} (loads : Bytes → Option Envelope) (s : ConsumerSettings) (body : Bytes) (n : ℕ)
    (handle : CommandMessage → Outcome)
    → 0 < length s.rabbitmq_retry_delays
    → Delivers s (on_message s (from_bytes loads body) n handle)
unfolding on_message
on_message-Delivers loads s body n handle h = elim (Option-cases (from_bytes loads body)) [
  | inl e ↦ rw e ((publish_dead ∷ [], refl, omega arith, ((λ e. cc), tt), (tt, tt)))
  | inr (c, e) ↦ rw e (settle-Delivers s c n (handle c) (from_bytes-readable loads body c e) h)
]

-- Where a delivery leaves its command: queued again with a retry count, a dead letter, or done with.
pub data Fate : Type 0 where
  again : ℕ → Fate
  dead gone : Fate

pub fate : List Action → Fate
fate (publish q retry_count ∷ rest) = again retry_count
fate (publish_dead ∷ rest) = dead
fate _ = gone

-- The deliveries of a command from the n-th on, which its handler ends by `handle n`, until it is out
-- of the queues: how many there have been, and whether it is a dead letter. Fuel bounds them.
pub deliver : ConsumerSettings → CommandMessage → ℕ → ℕ → ℕ → (ℕ → Outcome) → Option (ℕ × Bool)
unfolding fate
deliver s c zero n retry_count handle = none
deliver s c (suc fuel) n retry_count handle = elim (fate (settle s c retry_count (handle n))) [
  | again retry_count' ↦ deliver s c fuel (suc n) retry_count' handle
  | dead ↦ some (suc n, true)
  | gone ↦ some (suc n, false)
]

module _ (s : ConsumerSettings) (c : CommandMessage) (handle : ℕ → Outcome) where
  open s use {rabbitmq_consumer_max_retries as max_retries}

  -- A command whose handler fails every time, delivered with a retry count up to the allowed one, is
  -- delivered once and then as many times more as the count leaves, and is a dead letter then; fuel
  -- above that number is enough.
  pub deliver_failing :
      ((n : ℕ) → (handle n ≡ retryable) ⊎ (handle n ≡ failed))
      → (fuel n r : ℕ) → r ≤ max_retries
      → max_retries - r < fuel
      → deliver s c fuel n r handle ≡ some (n + (max_retries - r) + 1, true)
  unfolding deliver settle
  deliver_failing fails zero n r h f = absurd (omega arith)
  deliver_failing fails (suc fuel) n r h f =
      ground (arith, fails n, deliver_failing fails fuel (suc n) (suc r))

  deliver-ne-none :
      ((n : ℕ) → handle n ≢ busy)
      → (fuel n r : ℕ) → r ≤ max_retries
      → max_retries - r < fuel
      → deliver s c fuel n r handle ≢ none
  unfolding deliver settle
  deliver-ne-none free zero n r h f = absurd (omega arith)
  deliver-ne-none free (suc fuel) n r h f =
      ground (arith, free n, deliver-ne-none free fuel (suc n) (suc r))

  deliver_bounded :
      ((n : ℕ) → handle n ≢ busy)
      → (fuel n r : ℕ) (m : ℕ) (d : Bool) → r ≤ max_retries
      → deliver s c fuel n r handle ≡ some (m, d)
      → m ≤ n + (max_retries - r) + 1
  unfolding deliver settle
  deliver_bounded free zero n r m d h e = cc
  deliver_bounded free (suc fuel) n r m d h e =
      ground (arith, free n, deliver_bounded free fuel (suc n) (suc r) m d)

  -- A command whose handler is never refused for a live lease leaves the queues: delivered with a
  -- retry count up to the allowed one, and with fuel above what the count leaves, its deliveries end,
  -- and there is at most one more of them than the count leaves.
  pub deliver_ends :
      ((n : ℕ) → handle n ≢ busy)
      → (fuel n r : ℕ) → r ≤ max_retries
      → max_retries - r < fuel
      → (m : ℕ) × (d : Bool) × (deliver s c fuel n r handle ≡ some (m, d))
        × (m ≤ n + (max_retries - r) + 1)
  deliver_ends free fuel n r h f = elim (Option-cases (deliver s c fuel n r handle)) [
    | inl e ↦ absurd (deliver-ne-none free fuel n r h f e)
    | inr ((m, d), e) ↦ (m, d, e, deliver_bounded free fuel n r m d h e)
  ]
