-- ===== src/Pipeline/Keeps.antt =====
-- main.rs: a webhook keeps what holds of the database, whether it succeeds or fails.
use simple_alert_proxy.Prelude.{
  if◌then◌else◌, ℕ, ◌≤◌, ◌<◌, String, Bool, true, false, Option, none, some, List, [], ◌∷◌, ◌++◌,
  ◌≡◌, refl,
}
use simple_alert_proxy.Prelude.Int.{i64_max}
use simple_alert_proxy.Prelude.Maps.{get}
use simple_alert_proxy.Alert.{AlertEvent}
use simple_alert_proxy.Routing.{Engines, Delivery, RouteEngine}
use simple_alert_proxy.Notification.{batch_key}
use simple_alert_proxy.Config.{ReceiverConfig, EscalationStepConfig}
use simple_alert_proxy.Storage.{Db, Result, ok, err}
use simple_alert_proxy.Storage.Batches.{queue_notification_batch}
use simple_alert_proxy.Pipeline.{
  State, Step, next_of, ◌>>=◌, on_db, Context, limits_of, configured_step, queue_step,
  queue_escalation_if_configured, spawn_delivery_worker, queue_target_event_delivery, queue_batched,
  queue_event_delivery, queue_by, stored_once, pure, answer, first_owner_team, deliver_one,
  deliver_all, ◌>>◌, planned, deliver_events, process_generic_events,
}
use simple_alert_proxy.Pipeline.Invariant.{
  IsSound, store_event_with_team-IsSound, queue_delivery-IsSound, queue_notification_batch-IsSound,
  queue_escalation-IsSound,
}

-- A step after which the predicate holds of the database if it held before.
abbrev pub Keeps : {A : Type 0} → (Db → Type 0) → Step A → Type 0
Keeps P m = (s : State) → P s.db → P (m s).1.db

next_of-Keeps :
    {A B : Type 0} (P : Db → Type 0) (k : A → Step B) (r : Result A × State)
    → ((a : A) → Keeps P (k a))
    → P r.1.db
    → P (next_of k r).1.db
next_of-Keeps P k (ok a, s) keeps h = keeps a s h
next_of-Keeps P k (err e, s) keeps h = h

bind-Keeps :
    {A B : Type 0} (P : Db → Type 0) (m : Step A) (k : A → Step B)
    → Keeps P m
    → ((a : A) → Keeps P (k a))
    → Keeps P (m >>= k)
bind-Keeps P m k f g s h = next_of-Keeps P k (m s) g (f s h)

module _ (context : Context) where
  open context use {config, serde, clock}

  -- Batches have room for an event, and the size limit is below the largest `i64`, where batching
  -- is on.
  abbrev pub LimitsFit : Type 0
  LimitsFit =
      (config.notification_batching.enabled ≡ true)
      → (1 ≤ config.notification_batching.max_events)
        × (config.notification_batching.max_payload_bytes < i64_max)

  abbrev pub Sound : Db → Type 0
  Sound = IsSound (limits_of config.notification_batching)

  queue_escalation_if_configured-Keeps :
      (id : ℕ) (delivery : Delivery)
      → Keeps Sound (queue_escalation_if_configured context id delivery)
  unfolding queue_escalation_if_configured
  queue_escalation_if_configured-Keeps id delivery =
      queued (configured_step context delivery.escalation_policy)
    where
      queued : (o : Option (String × EscalationStepConfig)) → Keeps Sound (queue_step context id o)
      queued none s h = h
      queued (some (name, step)) s h =
          queue_escalation-IsSound _ (clock s.db) id name step.delay_millis step.stop_on_ack
            step.stop_on_resolve s.db h

  queue_target_event_delivery-Keeps :
      (event : AlertEvent) (id : ℕ) (receiver : ReceiverConfig) (delivery : Delivery)
      → Keeps Sound (queue_target_event_delivery context event id receiver delivery)
  unfolding queue_target_event_delivery
  queue_target_event_delivery-Keeps event id receiver delivery s h =
      bind-Keeps Sound (queue_escalation_if_configured context id delivery)
        (λ _. spawn_delivery_worker context _) (queue_escalation_if_configured-Keeps id delivery)
        (λ _ t g. g) _ (queue_delivery-IsSound _ serde (clock s.db) id delivery s.db h)

  queue_batched-Keeps :
      (event : AlertEvent) (id : ℕ) (delivery : Delivery) (key : String)
      → 1 ≤ config.notification_batching.max_events
      → config.notification_batching.max_payload_bytes < i64_max
      → Keeps Sound (queue_batched context event id delivery key)
  queue_batched-Keeps event id delivery key one small =
      bind-Keeps Sound
        (on_db
          (λ now.
            queue_notification_batch serde now id event delivery key
              (limits_of config.notification_batching))
          clock)
        (λ _. queue_escalation_if_configured context id delivery)
        (λ s h.
          queue_notification_batch-IsSound _ serde (clock s.db) id event delivery key s.db one small
            h)
        (λ _. queue_escalation_if_configured-Keeps id delivery)

  queue_event_delivery-Keeps :
      (event : AlertEvent) (id : ℕ) (receiver : ReceiverConfig) (delivery : Delivery)
      → LimitsFit
      → Keeps Sound (queue_event_delivery context event id receiver delivery)
  unfolding queue_event_delivery
  queue_event_delivery-Keeps event id receiver delivery fit =
      queued config.notification_batching.enabled (batch_key context.hashing event delivery) fit
    where
      queued :
          (b : Bool) (o : Option String)
          → ((b ≡ true)
              → (1 ≤ config.notification_batching.max_events)
                × (config.notification_batching.max_payload_bytes < i64_max))
          → Keeps Sound (queue_by context event id receiver delivery (if b then o else none))
      queued true (some key) f = queue_batched-Keeps event id delivery key (f refl).0 (f refl).1
      queued true none f = queue_target_event_delivery-Keeps event id receiver delivery
      queued false o f = queue_target_event_delivery-Keeps event id receiver delivery

  stored_once-Keeps :
      (event : AlertEvent) (team : Option String) (id : Option ℕ)
      → Keeps Sound (stored_once context event team id)
  stored_once-Keeps event team (some id) s h = h
  stored_once-Keeps event team none s h =
      store_event_with_team-IsSound _ serde (clock s.db) event team s.db h

  deliver_one-Keeps :
      (event : AlertEvent) (team : Option String) (id : Option ℕ) (d : Delivery)
      (skip : Step (List String)) (next : ℕ → Step (List String)) (o : Option ReceiverConfig)
      → LimitsFit
      → Keeps Sound skip
      → ((event_id : ℕ) → Keeps Sound (next event_id))
      → Keeps Sound (deliver_one context event team id d skip next o)
  deliver_one-Keeps event team id d skip next none fit f g = f
  deliver_one-Keeps event team id d skip next (some receiver) fit f g =
      bind-Keeps Sound (stored_once context event team id)
        (λ event_id. queue_event_delivery context event event_id receiver d >> next event_id)
        (stored_once-Keeps event team id)
        (λ event_id.
          bind-Keeps Sound (queue_event_delivery context event event_id receiver d)
            (λ _. next event_id) (queue_event_delivery-Keeps event event_id receiver d fit)
            (λ _. g event_id))

  deliver_all-Keeps :
      (event : AlertEvent) (team : Option String) (id : Option ℕ) (ds : List Delivery)
      (delivered : List String)
      → LimitsFit
      → Keeps Sound (deliver_all context event team id ds delivered)
  unfolding deliver_all
  deliver_all-Keeps event team id [] delivered fit = λ s h. h
  deliver_all-Keeps event team id (d ∷ rest) delivered fit =
      deliver_one-Keeps event team id d _ _ (get d.receiver config.receivers) fit
        (deliver_all-Keeps event team id rest delivered fit)
        (λ event_id.
          deliver_all-Keeps event team (some event_id) rest (delivered ++ d.receiver ∷ []) fit)

  module _ (lib : Engines) (router : RouteEngine lib) where
    deliver_events-Keeps :
        (events : List AlertEvent) (delivered : List String)
        → LimitsFit
        → Keeps Sound (deliver_events lib context router events delivered)
    unfolding deliver_events
    deliver_events-Keeps [] delivered fit = λ s h. h
    deliver_events-Keeps (event ∷ rest) delivered fit =
        bind-Keeps Sound
          (deliver_all context event (first_owner_team (planned lib context router event)) none
            (planned lib context router event) delivered)
          (λ delivered'. deliver_events lib context router rest delivered')
          (deliver_all-Keeps event _ none (planned lib context router event) delivered fit)
          (λ delivered'. deliver_events-Keeps rest delivered' fit)

    -- A webhook keeps the event counts of the groups, the totals of the batches, that every batch has
    -- no more than `max_events` members and no more than `max_payload_bytes` bytes or one member (an
    -- event above that limit has a batch of its own), and that no acknowledged group has a task it
    -- should stop, whether it succeeds or fails; where batching is on, at least one event must be
    -- allowed and the payload limit must be below the largest `i64`.
    pub process_generic_events-IsSound :
        (events : List AlertEvent) (s : State)
        → LimitsFit
        → Sound s.db
        → Sound (process_generic_events lib context router events s).1.db
    unfolding process_generic_events
    process_generic_events-IsSound events s fit h =
        bind-Keeps Sound (deliver_events lib context router events [])
          (λ delivered. pure (answer context delivered)) (deliver_events-Keeps events [] fit)
          (λ delivered t g. g) s h
