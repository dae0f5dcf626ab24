-- ===== src/Storage/Batches/Runs.antt =====
-- storage.rs: the operations that change deliveries or batches, as steps on the database.
use simple_alert_proxy.Prelude.{ℕ, ◌≤◌, ◌<◌, String, Option, [], refl}
use simple_alert_proxy.Prelude.Int.{ℤ, i64_max}
use simple_alert_proxy.Table.{at}
use simple_alert_proxy.Table.Laws.{}
use simple_alert_proxy.Alert.{AlertEvent, EventSerde}
use simple_alert_proxy.Routing.{Delivery}
use simple_alert_proxy.Storage.{Db, empty, BatchStatus, AuditActor}
use simple_alert_proxy.Storage.Groups.{store_event_with_team}
use simple_alert_proxy.Storage.Deliveries.{
  queue_delivery, mark_attempt, mark_succeeded, mark_retrying, mark_dead_letter, replay_delivery_as,
  interrupted, recover_deliveries,
}
use simple_alert_proxy.Storage.Batches.{NotificationBatchLimits, queue_notification_batch}
use simple_alert_proxy.Storage.Batches.Totals.{IsTotalled, IsWithinUnlessSingle}
use simple_alert_proxy.Storage.Batches.Queue.{queue_notification_batch-IsTotalled}
use simple_alert_proxy.Storage.Sending.{
  claim_due_notification_batch, finish_notification_batch, recover_notification_batches,
}
use simple_alert_proxy.Storage.Retention.{prune_alerts_before}
use simple_alert_proxy.Storage.Retention.Batches.{prune_alerts_before-IsTotalled}
use simple_alert_proxy.Storage.Batches.Steps.{
  Keeps, queue_delivery-IsTotalled, store-Keeps, delivery-Keeps, batches-Keeps, replay-Keeps,
  claim-Keeps, recover-Keeps,
}

-- One operation, with any arguments, whether it succeeds or fails.
pub data Step (serde : EventSerde) (limits : NotificationBatchLimits) : Db → Db → Type 0 where
  stored :
      (now : ℤ) (event : AlertEvent) (team : Option String) (db : Db)
      → Step serde limits db (store_event_with_team serde now event team db).1
  queued :
      (now : ℤ) (event : ℕ) (delivery : Delivery) (db : Db)
      → Step serde limits db (queue_delivery serde now event delivery db).1
  batched :
      (now : ℤ) (event_id : ℕ) (event : AlertEvent) (delivery : Delivery) (key : String) (db : Db)
      → Step serde limits db
          (queue_notification_batch serde now event_id event delivery key limits db).1
  attempted :
      (now : ℤ) (id attempt : ℕ) (db : Db) → Step serde limits db (mark_attempt now id attempt db)
  succeeded :
      (now : ℤ) (id : ℕ) (response : String) (db : Db)
      → Step serde limits db (mark_succeeded now id response db)
  retrying :
      (now : ℤ) (id : ℕ) (next : ℤ) (error : String) (db : Db)
      → Step serde limits db (mark_retrying now id next error db)
  given_up :
      (now : ℤ) (id : ℕ) (error : String) (db : Db)
      → Step serde limits db (mark_dead_letter now id error db)
  replayed :
      (now : ℤ) (id : ℕ) (actor : AuditActor) (db : Db)
      → Step serde limits db (replay_delivery_as serde now id actor db).1
  claimed : (now : ℤ) (db : Db) → Step serde limits db (claim_due_notification_batch serde now db).1
  -- Also `mark_notification_batch_succeeded`, `_retrying` and `_dead_letter`.
  finished :
      (now : ℤ) (id : ℕ) (status : BatchStatus) (due_at : Option ℤ) (error : Option String)
      (db : Db)
      → Step serde limits db (finish_notification_batch now id status due_at error db)
  batches_recovered :
      (now : ℤ) (db : Db) → Step serde limits db (recover_notification_batches now db).1
  deliveries_recovered :
      (now : ℤ) (db : Db) → Step serde limits db (recover_deliveries serde now db).1
  pruned : (cutoff : ℤ) (db : Db) → Step serde limits db (prune_alerts_before cutoff db).1

-- Any number of operations, one after the other.
pub data Runs (serde : EventSerde) (limits : NotificationBatchLimits) : Db → Db → Type 0 where
  done : (db : Db) → Runs serde limits db db
  followed :
      (db db' db'' : Db)
      → Runs serde limits db db'
      → Step serde limits db' db''
      → Runs serde limits db db''

module _ (serde : EventSerde) (limits : NotificationBatchLimits) where
  module _ (one : 1 ≤ limits.max_events) (small : limits.max_payload_bytes < i64_max) where
    -- Every operation keeps the invariant.
    Step-Keeps :
        (db db' : Db) → Step serde limits db db' → Keeps serde limits db → Keeps serde limits db'
    unfolding mark_attempt mark_succeeded mark_retrying mark_dead_letter finish_notification_batch
        recover_notification_batches recover_deliveries queue_delivery
    Step-Keeps _ _ (stored now event team db) k = store-Keeps serde limits now event team db k
    Step-Keeps _ _ (queued now event delivery db) k =
        (queue_delivery-IsTotalled serde now event delivery db k.0, k.1)
    Step-Keeps _ _ (batched now event_id event delivery key db) k =
        queue_notification_batch-IsTotalled serde now event_id event delivery key limits db one
          small k.0 k.1
    Step-Keeps _ _ (attempted now id attempt db) k = delivery-Keeps serde limits id _ db k
    Step-Keeps _ _ (succeeded now id response db) k = delivery-Keeps serde limits id _ db k
    Step-Keeps _ _ (retrying now id next error db) k = delivery-Keeps serde limits id _ db k
    Step-Keeps _ _ (given_up now id error db) k = delivery-Keeps serde limits id _ db k
    Step-Keeps _ _ (replayed now id actor db) k = replay-Keeps serde limits now id actor db k
    Step-Keeps _ _ (claimed now db) k = claim-Keeps serde limits now db k
    Step-Keeps _ _ (finished now id status due_at error db) k =
        batches-Keeps serde limits (at id) _ _ _ db (λ b. (refl, refl)) k
    Step-Keeps _ _ (batches_recovered now db) k =
        batches-Keeps serde limits _ _ _ _ db (λ b. (refl, refl)) k
    Step-Keeps _ _ (deliveries_recovered now db) k =
        recover-Keeps serde limits now (interrupted db.members db.deliveries.rows) [] db k
    Step-Keeps _ _ (pruned cutoff db) k = prune_alerts_before-IsTotalled cutoff db limits k.0 k.1

    -- However these operations follow each other from the empty database: an event is stored; a delivery is
    -- queued, alone or in a batch under one choice of limits; a delivery is attempted, succeeds, waits for a retry,
    -- is given up or replayed; a batch is claimed or ends in any way; batches or deliveries are
    -- recovered; the retention job runs; every batch has the event count and payload size of its
    -- members, no more than `max_events` members, and no more than `max_payload_bytes` bytes or one
    -- member, if at least one event is allowed and the payload limit is below the largest `i64`.
    pub reachable-IsTotalled :
        (db : Db) → Runs serde limits empty db → IsTotalled db × IsWithinUnlessSingle limits db
    reachable-IsTotalled db r = kept empty db r (
      (record {
        batches_fresh = tt;
        deliveries_fresh = tt;
        members_fresh = tt;
        owned = tt;
        totals = tt;
      }),
      tt,
    )
      where
        kept : (a b : Db) → Runs serde limits a b → Keeps serde limits a → Keeps serde limits b
        kept _ _ (done a) k = k
        kept _ _ (followed a c b r s) k = Step-Keeps c b s (kept a c r k)
