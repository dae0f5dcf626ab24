-- ===== src/Pipeline/Invariant.antt =====
-- main.rs: every call that a webhook makes of the storage keeps what holds of the database.
use simple_alert_proxy.Prelude.{ℕ, ◌≤◌, ◌<◌, String, Bool, Option, ◌≡◌, refl}
use simple_alert_proxy.Prelude.Int.{ℤ, i64_max}
use simple_alert_proxy.Alert.{AlertEvent, EventSerde}
use simple_alert_proxy.Routing.{Delivery}
use simple_alert_proxy.Storage.{Db}
use simple_alert_proxy.Storage.Groups.{store_event_with_team}
use simple_alert_proxy.Storage.Groups.Counts.{IsCounted, store_event_with_team-IsCounted}
use simple_alert_proxy.Storage.Deliveries.{queue_delivery}
use simple_alert_proxy.Storage.Batches.{NotificationBatchLimits, queue_notification_batch}
use simple_alert_proxy.Storage.Batches.Totals.{IsTotalled, IsWithinUnlessSingle}
use simple_alert_proxy.Storage.Batches.Steps.{IsTotalled-same, queue_delivery-IsTotalled}
use simple_alert_proxy.Storage.Batches.Queue.{queue_notification_batch-IsTotalled}
use simple_alert_proxy.Storage.Escalation.{queue_escalation}
use simple_alert_proxy.Storage.Escalation.Tasks.{IsCalm, queue-IsCalm}
use simple_alert_proxy.Storage.Escalation.Actions.{store-IsCalm}
use simple_alert_proxy.Pipeline.Frames.{
  queue_notification_batch-SameAlerts, queue_escalation-SameButTasks,
}

-- The invariants together: of the groups' event counts, of the batches' totals and limits (a batch
-- of one event may exceed the limit in bytes), and of the escalation tasks of acknowledged groups.
pub record IsSound (limits : NotificationBatchLimits) (db : Db) : Type 0 where
  pub counted : IsCounted db
  pub totalled : IsTotalled db
  pub within : IsWithinUnlessSingle limits db
  pub calm : IsCalm db

IsCounted-same :
    (before after : Db)
    → after.groups ≡ before.groups
    → after.events ≡ before.events
    → IsCounted before
    → IsCounted after
IsCounted-same before after g e h = record {
  groups_fresh = rw g h.groups_fresh;
  events_fresh = rw e h.events_fresh;
  owned = rw (g, e) h.owned;
  counted = rw (g, e) h.counted;
  unique = rw g h.unique;
}

IsCalm-same :
    (before after : Db)
    → after.groups ≡ before.groups
    → after.tasks ≡ before.tasks
    → IsCalm before
    → IsCalm after
IsCalm-same before after g t h = record { groups = rw g h.groups; quiet = rw (g, t) h.quiet }

module _ (limits : NotificationBatchLimits) where
  pub store_event_with_team-IsSound :
      (serde : EventSerde) (now : ℤ) (event : AlertEvent) (team : Option String) (db : Db)
      → IsSound limits db
      → IsSound limits (store_event_with_team serde now event team db).1
  unfolding store_event_with_team
  store_event_with_team-IsSound serde now event team db h = record {
    counted = store_event_with_team-IsCounted serde now event team db h.counted;
    totalled =
        IsTotalled-same db (store_event_with_team serde now event team db).1 refl refl refl
          h.totalled;
    within = h.within;
    calm = store-IsCalm serde now event team db h.calm;
  }

  pub queue_delivery-IsSound :
      (serde : EventSerde) (now : ℤ) (id : ℕ) (delivery : Delivery) (db : Db)
      → IsSound limits db
      → IsSound limits (queue_delivery serde now id delivery db).1
  unfolding queue_delivery
  queue_delivery-IsSound serde now id delivery db h =
      let after = (queue_delivery serde now id delivery db).1 in
      record {
        counted = IsCounted-same db after refl refl h.counted;
        totalled = queue_delivery-IsTotalled serde now id delivery db h.totalled;
        within = h.within;
        calm = IsCalm-same db after refl refl h.calm;
      }

  pub queue_notification_batch-IsSound :
      (serde : EventSerde) (now : ℤ) (id : ℕ) (event : AlertEvent) (delivery : Delivery)
      (key : String) (db : Db)
      → 1 ≤ limits.max_events
      → limits.max_payload_bytes < i64_max
      → IsSound limits db
      → IsSound limits (queue_notification_batch serde now id event delivery key limits db).1
  queue_notification_batch-IsSound serde now id event delivery key db one small h =
      let after = (queue_notification_batch serde now id event delivery key limits db).1 in
      let same = queue_notification_batch-SameAlerts serde now id event delivery key limits db in
      let both =
        queue_notification_batch-IsTotalled serde now id event delivery key limits db one small
          h.totalled h.within in
      record {
        counted = IsCounted-same db after same.groups same.events h.counted;
        totalled = both.0;
        within = both.1;
        calm = IsCalm-same db after same.groups same.tasks h.calm;
      }

  pub queue_escalation-IsSound :
      (now : ℤ) (event : ℕ) (policy : String) (delay : ℕ) (on_ack on_resolve : Bool) (db : Db)
      → IsSound limits db
      → IsSound limits (queue_escalation now event policy delay on_ack on_resolve db).1
  queue_escalation-IsSound now event policy delay on_ack on_resolve db h =
      let after = (queue_escalation now event policy delay on_ack on_resolve db).1 in
      let same = queue_escalation-SameButTasks now event policy delay on_ack on_resolve db in
      record {
        counted = IsCounted-same db after same.groups same.events h.counted;
        totalled = IsTotalled-same db after same.deliveries same.batches same.members h.totalled;
        within = rw same.batches h.within;
        calm = queue-IsCalm now event policy delay on_ack on_resolve db h.calm;
      }
