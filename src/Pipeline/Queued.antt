-- ===== src/Pipeline/Queued.antt =====
-- main.rs: queueing one delivery of an event that is stored with its group.
use simple_alert_proxy.Prelude.{ℕ, ◌+◌, String, Option, none, some, ◌≡◌, refl, sym, ap, subst, ◌∙◌}
use simple_alert_proxy.Prelude.Int.{ℤ}
use simple_alert_proxy.Alert.{AlertEvent, EventSerde}
use simple_alert_proxy.Table
use simple_alert_proxy.Routing.{Delivery}
use simple_alert_proxy.Config.{ReceiverConfig, EscalationStepConfig}
use simple_alert_proxy.Storage.{Db, Result, ok, err}
use simple_alert_proxy.Storage.Deliveries.{queue_delivery}
use simple_alert_proxy.Storage.Batches.{queue_notification_batch}
use simple_alert_proxy.Storage.Escalation.{queue_escalation}
use simple_alert_proxy.Pipeline.{
  State, Step, next_of, on_db, Context, limits_of, configured_step, queue_step,
  queue_escalation_if_configured, spawn_delivery_worker, queue_target_event_delivery, queue_batched,
  queue_by, batching_key, queue_event_delivery,
}
use simple_alert_proxy.Pipeline.Frames.{
  queue_notification_batch-SameAlerts, queue_delivery-SameAlerts, queue_escalation-SameButTasks,
}
use simple_alert_proxy.Pipeline.Anchors.{
  IsAnchored, queue_escalation-ok, queue_notification_batch-ok, Fits,
}

-- The step gives the value, leaves `n` delivery records, and a database with the property.
pub record Gives {A : Type 0} (a : A) (n : ℕ) (P : Db → Type 0) (r : Result A × State)
    : Type 0 where
  pub value : r.0 ≡ ok a
  pub records : r.1.db.deliveries.seq ≡ n
  pub holds : P r.1.db

pub next_of-Gives :
    {A B : Type 0} (a : A) (b : B) (n m : ℕ) (P Q : Db → Type 0) (k : A → Step B)
    (r : Result A × State)
    → Gives a n P r
    → ((t : State) → t.db.deliveries.seq ≡ n → P t.db → Gives b m Q (k a t))
    → Gives b m Q (next_of k r)
next_of-Gives a b n m P Q k (ok x, t) g f =
    let same : x ≡ a = cc in subst (λ y. Gives b m Q (k y t)) (sym same) (f t g.records g.holds)
next_of-Gives a b n m P Q k (err e, t) g f = cc

queue_delivery-seq :
    (serde : EventSerde) (now : ℤ) (id : ℕ) (delivery : Delivery) (db : Db)
    → (queue_delivery serde now id delivery db).1.deliveries.seq ≡ db.deliveries.seq + 1
unfolding queue_delivery Table.insert
queue_delivery-seq serde now id delivery db = refl

abbrev pub Sized : Context → AlertEvent → Type 0
Sized context = Fits context.serde (limits_of context.config.notification_batching)

-- What a change of deliveries, batches and tasks keeps.
abbrev pub IsStable : (Db → Type 0) → Type 0
IsStable P =
    (before after : Db)
    → after.groups ≡ before.groups
    → after.events ≡ before.events
    → P before
    → P after

module _ (context : Context) (id : ℕ) (P : Db → Type 0) (stable : IsStable P)
    (anchored : (db : Db) → P db → IsAnchored id db) where
  open context use {config, serde, clock}

  queue_escalation_if_configured-Gives :
      (n : ℕ) (delivery : Delivery) (s : State)
      → s.db.deliveries.seq ≡ n
      → P s.db
      → Gives tt n P (queue_escalation_if_configured context id delivery s)
  unfolding queue_escalation_if_configured
  queue_escalation_if_configured-Gives n delivery s e h =
      queued (configured_step context delivery.escalation_policy)
    where
      queued :
          (o : Option (String × EscalationStepConfig)) → Gives tt n P (queue_step context id o s)
      queued none = record { value = refl; records = e; holds = h }
      queued (some (name, step)) =
          let now = clock s.db in
          let after =
            (queue_escalation now id name step.delay_millis step.stop_on_ack step.stop_on_resolve
              s.db).1 in
          let same =
            queue_escalation-SameButTasks now id name step.delay_millis step.stop_on_ack
              step.stop_on_resolve s.db in
          record {
            value =
                queue_escalation-ok now id name step.delay_millis step.stop_on_ack
                  step.stop_on_resolve s.db (anchored s.db h);
            records = ap (λ t. t.seq) same.deliveries ∙ e;
            holds = stable s.db after same.groups same.events h;
          }

  queue_target_event_delivery-Gives :
      (event : AlertEvent) (n : ℕ) (receiver : ReceiverConfig) (delivery : Delivery) (s : State)
      → s.db.deliveries.seq ≡ n
      → P s.db
      → Gives tt (n + 1) P (queue_target_event_delivery context event id receiver delivery s)
  unfolding queue_target_event_delivery
  queue_target_event_delivery-Gives event n receiver delivery s e h =
      let after = (queue_delivery serde (clock s.db) id delivery s.db).1 in
      let same = queue_delivery-SameAlerts serde (clock s.db) id delivery s.db in
      let t : State = record s { db = after } in
      next_of-Gives tt tt (n + 1) (n + 1) P P (λ _. spawn_delivery_worker context _)
        (queue_escalation_if_configured context id delivery t)
        (queue_escalation_if_configured-Gives (n + 1) delivery t
          (queue_delivery-seq serde (clock s.db) id delivery s.db ∙ ap (λ m. m + 1) e)
          (stable s.db after same.groups same.events h))
        (λ u f g. record { value = refl; records = f; holds = g })

  queue_batched-Gives :
      (event : AlertEvent) (n : ℕ) (delivery : Delivery) (key : String) (s : State)
      → Sized context event
      → s.db.deliveries.seq ≡ n
      → P s.db
      → Gives tt (n + 1) P (queue_batched context event id delivery key s)
  queue_batched-Gives event n delivery key s fit e h =
      let now = clock s.db in
      let limits = limits_of config.notification_batching in
      let after = (queue_notification_batch serde now id event delivery key limits s.db).1 in
      let done = queue_notification_batch-ok serde now id event delivery key limits s.db fit in
      let same = queue_notification_batch-SameAlerts serde now id event delivery key limits s.db in
      next_of-Gives (s.db.deliveries.seq + 1) tt (n + 1) (n + 1) P P
        (λ _. queue_escalation_if_configured context id delivery)
        (on_db (λ now. queue_notification_batch serde now id event delivery key limits) clock s)
        (record {
          value = done.0;
          records = done.1 ∙ ap (λ m. m + 1) e;
          holds = stable s.db after same.groups same.events h;
        })
        (λ t f g. queue_escalation_if_configured-Gives (n + 1) delivery t f g)

  pub queue_event_delivery-Gives :
      (event : AlertEvent) (n : ℕ) (receiver : ReceiverConfig) (delivery : Delivery) (s : State)
      → Sized context event
      → s.db.deliveries.seq ≡ n
      → P s.db
      → Gives tt (n + 1) P (queue_event_delivery context event id receiver delivery s)
  unfolding queue_event_delivery
  queue_event_delivery-Gives event n receiver delivery s fit e h =
      queued (batching_key context event delivery)
    where
      queued :
          (o : Option String) → Gives tt (n + 1) P (queue_by context event id receiver delivery o s)
      queued (some key) = queue_batched-Gives event n delivery key s fit e h
      queued none = queue_target_event_delivery-Gives event n receiver delivery s e h
