-- ===== src/Pipeline/Frames.antt =====
-- storage.rs, as main.rs calls it: which tables the calls of a webhook leave alone.
use simple_alert_proxy.Prelude.{
  ℕ, String, Bool, Option, none, some, ◌≡◌, refl, sym, subst, arith, Bool-cases, inl, inr,
}
use simple_alert_proxy.Prelude.Int.{ℤ}
use simple_alert_proxy.Alert.{AlertEvent, EventSerde}
use simple_alert_proxy.Routing.{Delivery}
use simple_alert_proxy.Storage.{Db, GroupRow}
use simple_alert_proxy.Storage.Deliveries.{queue_delivery}
use simple_alert_proxy.Storage.Batches.{
  NotificationBatchLimits, choose_batch, close_batch, insert_notification_batch, join_batch,
  queue_in_batch, queue_notification_batch,
}
use simple_alert_proxy.Storage.Escalation.{allows, schedule, queue_escalation}
use simple_alert_proxy.Storage.Escalation.Stops.{schedule_lem, added_to}
use simple_alert_proxy.Storage.Escalation.Tasks.{queue_after}
use simple_alert_proxy.Storage.Batches.Queue.{queued_db}
use simple_alert_proxy.Table.{find}

-- The tables of events, groups and escalation tasks are the same.
pub record SameAlerts (before after : Db) : Type 0 where
  pub groups : after.groups ≡ before.groups
  pub events : after.events ≡ before.events
  pub tasks : after.tasks ≡ before.tasks

choose_batch-SameAlerts :
    (key : String) (delivery : Delivery) (now : ℤ) (bytes : ℕ) (limits : NotificationBatchLimits)
    (db : Db)
    → SameAlerts db (choose_batch key delivery now bytes limits db).1
unfolding choose_batch close_batch insert_notification_batch
choose_batch-SameAlerts key delivery now bytes limits db = record {
  groups = ground arith;
  events = ground arith;
  tasks = ground arith;
}

queue_in_batch-SameAlerts :
    (serde : EventSerde) (now : ℤ) (event bytes : ℕ) (delivery : Delivery) (key : String)
    (limits : NotificationBatchLimits) (db : Db)
    → SameAlerts db (queue_in_batch serde now event bytes delivery key limits db).1
unfolding queue_in_batch join_batch
queue_in_batch-SameAlerts serde now event bytes delivery key limits db =
    let chosen =
      choose_batch-SameAlerts key delivery now bytes limits
        (queued_db serde now event delivery key db) in
    record { groups = chosen.groups; events = chosen.events; tasks = chosen.tasks }

pub queue_notification_batch-SameAlerts :
    (serde : EventSerde) (now : ℤ) (id : ℕ) (event : AlertEvent) (delivery : Delivery)
    (key : String) (limits : NotificationBatchLimits) (db : Db)
    → SameAlerts db (queue_notification_batch serde now id event delivery key limits db).1
unfolding queue_notification_batch
queue_notification_batch-SameAlerts serde now id event delivery key limits db =
    let inside =
      queue_in_batch-SameAlerts serde now id (serde.event_len event) delivery key limits db in
    record {
      groups = ground (arith, inside.groups);
      events = ground (arith, inside.events);
      tasks = ground (arith, inside.tasks);
    }

pub queue_delivery-SameAlerts :
    (serde : EventSerde) (now : ℤ) (id : ℕ) (delivery : Delivery) (db : Db)
    → SameAlerts db (queue_delivery serde now id delivery db).1
unfolding queue_delivery
queue_delivery-SameAlerts serde now id delivery db = record {
  groups = refl;
  events = refl;
  tasks = refl;
}

-- Every table but that of the escalation tasks is the same.
pub record SameButTasks (before after : Db) : Type 0 where
  pub groups : after.groups ≡ before.groups
  pub events : after.events ≡ before.events
  pub deliveries : after.deliveries ≡ before.deliveries
  pub batches : after.batches ≡ before.batches
  pub members : after.members ≡ before.members

schedule-SameButTasks :
    (now : ℤ) (group : ℕ) (policy : String) (step delay : ℕ) (on_ack on_resolve : Bool) (db : Db)
    → SameButTasks db (schedule now group policy step delay on_ack on_resolve db).1
schedule-SameButTasks now group policy step delay on_ack on_resolve db =
    subst (SameButTasks db) (sym (schedule_lem now group policy step delay on_ack on_resolve db))
      (split (find group db.groups.rows))
  where
    same : SameButTasks db db
    same = record {
      groups = refl;
      events = refl;
      deliveries = refl;
      batches = refl;
      members = refl;
    }

    split :
        (o : Option GroupRow)
        → SameButTasks db (added_to now group policy step delay on_ack on_resolve db o)
    split none = same
    split (some g) = elim (Bool-cases (allows on_ack on_resolve g)) [
      | inl p ↦ rw p (record {
        groups = refl;
        events = refl;
        deliveries = refl;
        batches = refl;
        members = refl;
      })
      | inr p ↦ rw p same
    ]

pub queue_escalation-SameButTasks :
    (now : ℤ) (event : ℕ) (policy : String) (delay : ℕ) (on_ack on_resolve : Bool) (db : Db)
    → SameButTasks db (queue_escalation now event policy delay on_ack on_resolve db).1
queue_escalation-SameButTasks now event policy delay on_ack on_resolve db =
    elim (queue_after now event policy delay on_ack on_resolve db) [
      | inl e ↦ subst (SameButTasks db) (sym e) (record {
        groups = refl;
        events = refl;
        deliveries = refl;
        batches = refl;
        members = refl;
      })
      | inr (group, e) ↦
          subst (SameButTasks db) (sym e)
            (schedule-SameButTasks now group policy 0 delay on_ack on_resolve db)
    ]
