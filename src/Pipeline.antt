-- ===== src/Pipeline.antt =====
-- main.rs: from the events of a webhook to the rows and the workers that deliver them. A request is
-- one run on the state; what other tasks do between two of its calls of the storage is not in the run.
pub mod Frames
pub mod Invariant
pub mod Keeps
pub mod Anchors
pub mod Queued
pub mod Delivered
pub mod Webhook
pub mod Escalating
pub mod Tasks
pub mod Ends
use simple_alert_proxy.Prelude.{
  ℕ, ◌+◌, String, Bool, true, false, ◌&&◌, not, Option, none, some, List, [], ◌∷◌, ◌++◌, length,
  get_elem?, if◌then◌else◌, is_some,
}
use simple_alert_proxy.Prelude.Int.{ℤ}
use simple_alert_proxy.Prelude.Maps.{Entries, get}
use simple_alert_proxy.Prelude.Text.{append}
use simple_alert_proxy.Json.{
  Value, Items, nil, cons, Fields, end, field, number, string, array, object,
}
use simple_alert_proxy.Alert.{AlertEvent, EventSerde}
use simple_alert_proxy.Routing.{Engines, Delivery, RouteEngine, plan}
use simple_alert_proxy.Notification.{Hashing, batch_key}
use simple_alert_proxy.Config.{
  AppConfig, ReceiverConfig, EscalationPolicyConfig, EscalationStepConfig,
  NotificationBatchingConfig, owner_team,
}
use simple_alert_proxy.Storage.{Db, Action, Result, ok, err}
use simple_alert_proxy.Storage.Groups.{store_event_with_team}
use simple_alert_proxy.Storage.Deliveries.{queue_delivery}
use simple_alert_proxy.Storage.Batches.{NotificationBatchLimits, queue_notification_batch}
use simple_alert_proxy.Storage.Escalation.{queue_escalation}

-- A worker that `spawn_delivery_worker` starts.
pub record Spawned : Type 0 where
  pub delivery_id : ℕ
  pub event : AlertEvent
  pub receiver : ReceiverConfig
  pub delivery : Delivery
  pub idempotency_key : String
  pub first_attempt : ℕ

-- The database, and the workers started so far.
pub record State : Type 0 where
  pub db : Db
  pub spawned : List Spawned

abbrev pub Step : Type 0 → Type 0
Step A = State → Result A × State

abbrev pub next_of : {A B : Type 0} → (A → Step B) → Result A × State → Result B × State
next_of k (ok a, s) = k a s
next_of k (err e, s) = (err e, s)

-- `?`: a step that fails ends the chain, and what was written stays written.
infixl 5 ◌>>=◌
abbrev pub ◌>>=◌ : {A B : Type 0} → Step A → (A → Step B) → Step B
m >>= k = λ s. next_of k (m s)

infixl 5 ◌>>◌
abbrev pub ◌>>◌ : {A B : Type 0} → Step A → Step B → Step B
m >> n = m >>= λ _. n

abbrev pub pure : {A : Type 0} → A → Step A
pure a s = (ok a, s)

-- A call of the storage. `clock` says what it reads from the clock.
abbrev pub on_db : {A : Type 0} → (ℤ → Action A) → (Db → ℤ) → Step A
on_db f clock s = ((f (clock s.db) s.db).0, record s { db = (f (clock s.db) s.db).1 })

-- A storage call that cannot fail here.
abbrev pub total : {A : Type 0} → (ℤ → Db → A × Db) → ℤ → Action A
total f now db = (ok (f now db).0, (f now db).1)

-- The configuration, and what the handler has from elsewhere: serde_json, the hash, how a number is
-- printed, and what the clock reads at a call when the database is as given.
pub record Context : Type 1 where
  pub config : AppConfig
  pub serde : EventSerde
  pub hashing : Hashing
  pub shown : ℕ → String
  pub clock : Db → ℤ

abbrev pub own : AppConfig → Delivery → Delivery
own config delivery = elim delivery.owner_team [
  | some team ↦ delivery
  | none ↦ record delivery {
    owner_team = elim (get delivery.receiver config.receivers) [
      | none ↦ none
      | some receiver ↦ owner_team receiver
    ];
  }
]

unfoldable pub deliveries_with_receiver_ownership : AppConfig → List Delivery → List Delivery
unfolding get owner_team
deliveries_with_receiver_ownership config [] = []
deliveries_with_receiver_ownership config (d ∷ ds) =
    own config d ∷ deliveries_with_receiver_ownership config ds

unfoldable pub first_owner_team : List Delivery → Option String
first_owner_team [] = none
first_owner_team (d ∷ ds) = elim d.owner_team [ some team ↦ some team | none ↦ first_owner_team ds ]

abbrev pub first_step : Option EscalationPolicyConfig → Option EscalationStepConfig
first_step none = none
first_step (some policy) = elim policy.steps [ [] ↦ none | ◌∷◌ step rest ↦ some step ]

abbrev pub limits_of : NotificationBatchingConfig → NotificationBatchLimits
limits_of batching = record {
  group_wait_millis = batching.group_wait_millis;
  max_events = batching.max_events;
  max_payload_bytes = batching.max_payload_bytes;
}

module _ (context : Context) where
  open context use {config, serde, hashing, shown, clock}

  -- The first step of the policy, where the policy is there and has one.
  abbrev pub configured_step : Option String → Option (String × EscalationStepConfig)
  configured_step none = none
  configured_step (some name) = elim (first_step (get name config.escalation.policies)) [
    | none ↦ none
    | some step ↦ some (name, step)
  ]

  abbrev pub queue_step : ℕ → Option (String × EscalationStepConfig) → Step (Unit {0})
  queue_step event_id none = pure tt
  queue_step event_id (some (policy_name, step)) =
      on_db
        (λ now.
          queue_escalation now event_id policy_name step.delay_millis step.stop_on_ack
            step.stop_on_resolve)
        clock

  unfoldable pub queue_escalation_if_configured : ℕ → Delivery → Step (Unit {0})
  unfolding get
  queue_escalation_if_configured event_id delivery =
      queue_step event_id (configured_step delivery.escalation_policy)

  abbrev pub spawn_delivery_worker : Spawned → Step (Unit {0})
  spawn_delivery_worker worker s = (ok tt, record s { spawned = s.spawned ++ worker ∷ [] })

  unfoldable pub queue_target_event_delivery :
      AlertEvent → ℕ → ReceiverConfig → Delivery → Step (Unit {0})
  unfolding queue_escalation_if_configured
  queue_target_event_delivery event event_id receiver delivery = do
    delivery_id ← on_db (total (λ now. queue_delivery serde now event_id delivery)) clock
    queue_escalation_if_configured event_id delivery
    spawn_delivery_worker (record {
      delivery_id = delivery_id;
      event = event;
      receiver = receiver;
      delivery = delivery;
      idempotency_key = append "simple-alert-proxy-" (shown delivery_id);
      first_attempt = 1;
    })

  -- The key under which the delivery joins a batch, if it does.
  abbrev pub batching_key : AlertEvent → Delivery → Option String
  batching_key event delivery =
      if config.notification_batching.enabled then batch_key hashing event delivery else none

  abbrev pub queue_batched : AlertEvent → ℕ → Delivery → String → Step (Unit {0})
  queue_batched event event_id delivery key = do
    _ ←
        on_db
          (λ now.
            queue_notification_batch serde now event_id event delivery key
              (limits_of config.notification_batching))
          clock
    queue_escalation_if_configured event_id delivery

  abbrev pub queue_by : AlertEvent → ℕ → ReceiverConfig → Delivery → Option String → Step (Unit {0})
  queue_by event event_id receiver delivery (some key) = queue_batched event event_id delivery key
  queue_by event event_id receiver delivery none =
      queue_target_event_delivery event event_id receiver delivery

  unfoldable pub queue_event_delivery : AlertEvent → ℕ → ReceiverConfig → Delivery → Step (Unit {0})
  unfolding queue_target_event_delivery queue_escalation_if_configured batch_key
  queue_event_delivery event event_id receiver delivery =
      queue_by event event_id receiver delivery (batching_key event delivery)

  -- `match alert_event_id`: the event is stored before its first delivery.
  abbrev pub stored_once : AlertEvent → Option String → Option ℕ → Step ℕ
  stored_once event team (some id) = pure id
  stored_once event team none =
      on_db (total (λ now. store_event_with_team serde now event team)) clock

  -- The body of the inner loop, with the two ways it goes on: `continue`, or the next delivery with
  -- the stored event's id.
  abbrev pub deliver_one :
      AlertEvent
      → Option String
      → Option ℕ
      → Delivery
      → Step (List String)
      → (ℕ → Step (List String))
      → Option ReceiverConfig
      → Step (List String)
  deliver_one event team id delivery skip next none = skip
  deliver_one event team id delivery skip next (some receiver) = do
    event_id ← stored_once event team id
    queue_event_delivery event event_id receiver delivery
    next event_id

  -- The inner loop, with the stored event's id and the receivers so far.
  unfoldable pub deliver_all :
      AlertEvent → Option String → Option ℕ → List Delivery → List String → Step (List String)
  unfolding queue_event_delivery get
  deliver_all event team id [] delivered = pure delivered
  deliver_all event team id (delivery ∷ rest) delivered =
      deliver_one event team id delivery (deliver_all event team id rest delivered)
        (λ event_id.
          deliver_all event team (some event_id) rest (delivered ++ delivery.receiver ∷ []))
        (get delivery.receiver config.receivers)

  abbrev pub array_of : List String → Items
  array_of [] = nil
  array_of (s ∷ rest) = cons (string s) (array_of rest)

  unfoldable pub delivery_summary : List String → Value
  delivery_summary receivers = object (
      field "delivered" (number (shown (length receivers)))
        (field "receivers" (array (array_of receivers)) end))

  -- The body of the answer, whose status is 202.
  abbrev pub answer : List String → Value
  answer [] = object (field "delivered" (number "0") end)
  answer (r ∷ rs) = delivery_summary (r ∷ rs)

module _ (lib : Engines) (context : Context) (router : RouteEngine lib) where
  open context use {config}

  abbrev pub planned : AlertEvent → List Delivery
  planned event = deliveries_with_receiver_ownership config (plan lib router event)

  unfoldable pub deliver_events : List AlertEvent → List String → Step (List String)
  unfolding deliver_all deliveries_with_receiver_ownership first_owner_team plan
  deliver_events [] delivered = pure delivered
  deliver_events (event ∷ rest) delivered = do
    delivered' ←
        deliver_all context event (first_owner_team (planned event)) none (planned event) delivered
    deliver_events rest delivered'

  unfoldable pub process_generic_events : List AlertEvent → Step Value
  unfolding deliver_events delivery_summary
  process_generic_events events = do
    delivered ← deliver_events events []
    pure (answer context delivered)
