-- ===== src/Examples/Retention.antt =====
-- Examples of the retention job, of counts and of redaction.
use Prim.Native.Char.{Char}
use simple_alert_proxy.Prelude.{
  false, ℕ, ◌+◌, String, none, some, [], ◌∷◌, ◌≡◌, ◌↔◌, arith, length, if◌then◌else◌,
}
use simple_alert_proxy.Prelude.Int.{pos}
use simple_alert_proxy.Json.{Value, string, number, array, object, nil, cons, end, field}
use simple_alert_proxy.Table.{find}
use simple_alert_proxy.Table.Laws.{IsFresh}
use simple_alert_proxy.Storage
use simple_alert_proxy.Storage.{Db, empty, BatchStatus}
use simple_alert_proxy.Storage.Groups.{store_event_with_team}
use simple_alert_proxy.Storage.Groups.Counts.{
  IsCounted, empty-IsCounted, store_event_with_team-IsCounted,
}
use simple_alert_proxy.Storage.Batches.Totals.{IsTotalled, IsWithinUnlessSingle}
use simple_alert_proxy.Storage.Retention.{is_old, prune_alerts_before}
use simple_alert_proxy.Storage.Retention.Events.{
  prune_alerts_before-IsCounted, prune_alerts_before_deletes,
}
use simple_alert_proxy.Storage.Retention.Batches.{prune_alerts_before-IsTotalled}
use simple_alert_proxy.Notification.{NotificationBatch, severity_counts, flattened_instances}
use simple_alert_proxy.Notification.Counts.{entered, having, entered-severity_counts}
use simple_alert_proxy.Redaction.{debug_payload_for_logging}
use simple_alert_proxy.Redaction.Laws.{IsRedacted, debug_payload_for_logging-IsRedacted}
use simple_alert_proxy.Storage.Batches.Runs.{
  stored, batched, claimed, finished, pruned, done, followed, reachable-IsTotalled,
}
use simple_alert_proxy.Storage.Sending.{claim_due_notification_batch, finish_notification_batch}
use simple_alert_proxy.Storage.Batches.{queue_notification_batch}
use simple_alert_proxy.Examples.{to_chat, disk_full, null_serde, batch_db}
use simple_alert_proxy.Examples.Notifications.{
  pairs, batch_db-Totalled, batch_db-IsWithinUnlessSingle,
}
use simple_alert_proxy.Examples.Settings.{disk_worn}

-- Two events of different times.
abbrev two_times : Db
two_times =
    (store_event_with_team null_serde (pos 20) disk_worn none
      (store_event_with_team null_serde (pos 5) disk_full none Storage.empty).1).1

two_times-IsCounted : IsCounted two_times
two_times-IsCounted =
    store_event_with_team-IsCounted null_serde (pos 20) disk_worn none
      (store_event_with_team null_serde (pos 5) disk_full none Storage.empty).1
      (store_event_with_team-IsCounted null_serde (pos 5) disk_full none Storage.empty
        empty-IsCounted)

prune_alerts_before-IsCounted_example : IsCounted (prune_alerts_before (pos 10) two_times).1
prune_alerts_before-IsCounted_example =
    prune_alerts_before-IsCounted (pos 10) two_times two_times-IsCounted

batch_db-IsFresh : IsFresh batch_db.events
batch_db-IsFresh = (omega arith, omega arith, tt)

prune_alerts_before_deletes_example :
    ((k : ℕ)
      → find k (prune_alerts_before (pos 10) batch_db).1.events.rows
        ≡ elim (find k batch_db.events.rows) [
          | none ↦ none
          | some e ↦ if is_old (pos 10) k e then none else some e
        ])
    × ((prune_alerts_before (pos 10) batch_db).0
          + length (prune_alerts_before (pos 10) batch_db).1.events.rows
        ≡ length batch_db.events.rows)
prune_alerts_before_deletes_example = prune_alerts_before_deletes (pos 10) batch_db batch_db-IsFresh

prune_alerts_before-IsTotalled_example :
    IsTotalled (prune_alerts_before (pos 10) batch_db).1
    × IsWithinUnlessSingle pairs (prune_alerts_before (pos 10) batch_db).1
prune_alerts_before-IsTotalled_example =
    prune_alerts_before-IsTotalled (pos 10) batch_db pairs batch_db-Totalled
      batch_db-IsWithinUnlessSingle

abbrev two_disks : NotificationBatch
two_disks = record { group_key = "key"; events = disk_full ∷ disk_worn ∷ [] }

entered-severity_counts_example :
    entered "critical" (severity_counts two_disks)
    ≡ having "critical" (flattened_instances two_disks)
entered-severity_counts_example = entered-severity_counts "critical" two_disks

-- Lower-case letters only.
abbrev as_it_is : Char → String
as_it_is c = String.◌∷◌ c ""

abbrev payload : Value
payload =
    object (field "api_key" (number "1") (field "hosts" (array (cons (string "db1") nil)) end))

debug_payload_for_logging-IsRedacted_example :
    IsRedacted as_it_is (debug_payload_for_logging as_it_is payload false)
    × (IsRedacted as_it_is payload ↔ (debug_payload_for_logging as_it_is payload false ≡ payload))
debug_payload_for_logging-IsRedacted_example = debug_payload_for_logging-IsRedacted as_it_is payload

-- An event is stored and queued in a batch, the batch is claimed and sent, and the retention job
-- runs.
abbrev stored_db : Db
stored_db = (store_event_with_team null_serde (pos 1) disk_full none empty).1

abbrev batched_db : Db
batched_db =
    (queue_notification_batch null_serde (pos 2) 1 disk_full to_chat "critical/chat" pairs
      stored_db).1

abbrev claimed_db : Db
claimed_db = (claim_due_notification_batch null_serde (pos 9000) batched_db).1

abbrev sent_db : Db
sent_db = finish_notification_batch (pos 9001) 1 BatchStatus.succeeded none none claimed_db

abbrev pruned_db : Db
pruned_db = (prune_alerts_before (pos 10) sent_db).1

reachable-IsTotalled_example : IsTotalled pruned_db × IsWithinUnlessSingle pairs pruned_db
reachable-IsTotalled_example =
    reachable-IsTotalled null_serde pairs (omega arith) (omega arith) pruned_db (
      followed empty sent_db pruned_db
        (followed empty claimed_db sent_db
          (followed empty batched_db claimed_db
            (followed empty stored_db batched_db
              (followed empty empty stored_db (done empty) (stored (pos 1) disk_full none empty))
              (batched (pos 2) 1 disk_full to_chat "critical/chat" stored_db))
            (claimed (pos 9000) batched_db))
          (finished (pos 9001) 1 BatchStatus.succeeded none none claimed_db))
        (pruned (pos 10) sent_db))
