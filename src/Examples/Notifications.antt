-- ===== src/Examples/Notifications.antt =====
-- Examples of routing, batches and delivery.
use simple_alert_proxy.Prelude.{
  List, ℕ, ◌<◌, inr, ◌≢◌, String, false, none, some, [], ◌∷◌, ◌≡◌, refl, arith, map, length, str_eq,
  leb, if◌then◌else◌,
}
use simple_alert_proxy.Prelude.Int.{pos}
use simple_alert_proxy.Json
use simple_alert_proxy.Table
use simple_alert_proxy.Table.{find}
use simple_alert_proxy.Table.Laws.{AllRows, IsFresh}
use simple_alert_proxy.Routing.{Engines, RouteEngine, CompiledRoute, plan}
use simple_alert_proxy.Routing.Plan.{matching, until_stop, or_default, plan_lem}
use simple_alert_proxy.Routing.{route_delivery}
use simple_alert_proxy.Storage.{
  DeliveryStatus, err, missing_event_data, Db, BatchRow, BatchStatus, ok,
}
use simple_alert_proxy.Storage.Deliveries.Recovery.{
  is_interrupted, recover_deliveries_none_interrupted,
}
use simple_alert_proxy.Storage.Deliveries.Requeue.{Recovered, recover_deliveries-Recovered}
use simple_alert_proxy.Storage.Deliveries.{
  replay_of, RecoveredDelivery, recover_deliveries, request_summary, queue_delivery,
  delivery_replay_record,
}
use simple_alert_proxy.Storage.Deliveries.Replay.{kept, delivery_replay_record-queue_delivery}
use simple_alert_proxy.Storage.Batches.{NotificationBatchLimits, queue_notification_batch}
use simple_alert_proxy.Storage.Batches.Totals.{Totalled, IsTotalled, IsWithinUnlessSingle}
use simple_alert_proxy.Storage.Batches.Queue.{queue_notification_batch-IsTotalled}
use simple_alert_proxy.Storage.Sending.{
  ClaimedNotificationBatch, claim_due_notification_batch, recover_notification_batches,
}
use simple_alert_proxy.Storage.Sending.Claims
use simple_alert_proxy.Storage.Sending.Recovery.{
  claim_due_notification_batch-recover_notification_batches,
}
use simple_alert_proxy.Worker.{DeliveryConfig, World, run_from}
use simple_alert_proxy.Worker.Backoff.{InOrder, run_from-InOrder}
use simple_alert_proxy.Worker.Outcome.{EndedIn, run_from-EndedIn}
use simple_alert_proxy.Examples.{
  waiting_batch, disk_full, constant_serde, null_serde, to_chat, disk_event, group_db, batch_db,
  queued_delivery,
}

-- An engine whose expressions are plain texts.
abbrev plain : Engines
plain = record {
  Regex = String;
  regex_new = λ s. some s;
  is_match = λ r s. str_eq r s;
  pointer = λ v path. none;
}

abbrev critical_route : CompiledRoute plain
critical_route = record {
  name = "critical";
  receiver = "chat";
  owner_team = none;
  escalation_policy = none;
  group_by = [];
  continue_matching = false;
  matchers =
      record { field = "severity"; equals = some "critical"; contains = none; regex = none } ∷ [];
}

abbrev one_route : RouteEngine plain
one_route = record { routes = critical_route ∷ []; default_receiver = some "archive" }

plan_lem_example :
    plan plain one_route disk_full
    ≡ or_default plain (some "archive") (
        map
          (route_delivery plain)
          (until_stop plain (matching plain disk_full (critical_route ∷ []))))
plan_lem_example = plan_lem plain one_route disk_full

abbrev pub pairs : NotificationBatchLimits
pairs = record { group_wait_millis = 1000; max_events = 2; max_payload_bytes = 500 }

pub batch_db-Totalled : Totalled 1 batch_db
unfolding Table.count_where Table.sum_where
batch_db-Totalled = record {
  batches_fresh = (omega arith, omega arith, tt);
  deliveries_fresh = (omega arith, omega arith, tt);
  members_fresh = (omega arith, omega arith, tt);
  owned = (omega arith, tt);
  totals = ((refl, refl), tt);
}

pub batch_db-IsWithinUnlessSingle : IsWithinUnlessSingle pairs batch_db
batch_db-IsWithinUnlessSingle = ((omega arith, ground arith), tt)

queue_notification_batch-IsTotalled_example :
    IsTotalled
      (queue_notification_batch null_serde
        (pos 30)
        1
        disk_full
        to_chat
        "critical/chat"
        pairs
        batch_db).1
    × IsWithinUnlessSingle pairs
        (queue_notification_batch null_serde
          (pos 30)
          1
          disk_full
          to_chat
          "critical/chat"
          pairs
          batch_db).1
queue_notification_batch-IsTotalled_example =
    queue_notification_batch-IsTotalled null_serde (pos 30) 1 disk_full to_chat "critical/chat"
      pairs batch_db (omega arith) (omega arith) batch_db-Totalled batch_db-IsWithinUnlessSingle

abbrev claimed_batch : ClaimedNotificationBatch
claimed_batch = record {
  id = 1;
  batch_key = "critical/chat";
  delivery = to_chat;
  attempt = 2;
  members = disk_full ∷ [];
}

batch_db-claim :
    (claim_due_notification_batch null_serde (pos 30) batch_db).0 ≡ ok (some claimed_batch)
unfolding claim_due_notification_batch Table.select_first Table.find
batch_db-claim = refl

claim_due_notification_batch-Claimed_example :
    Claims.Claimed
      (pos 30)
      batch_db
      (claim_due_notification_batch null_serde (pos 30) batch_db).1
      claimed_batch
claim_due_notification_batch-Claimed_example =
    Claims.claim_due_notification_batch-Claimed null_serde (pos 30) batch_db claimed_batch
      (omega arith, omega arith, tt) batch_db-claim

-- The batch while it is sent.
abbrev sent_batch : BatchRow
sent_batch = record waiting_batch { status = BatchStatus.delivering }

abbrev sending_db : Db
sending_db = record batch_db { batches = record { seq = 1; rows = (1, sent_batch) ∷ [] } }

sent_found : find 1 sending_db.batches.rows ≡ some sent_batch
unfolding find
sent_found = refl

claim_due_notification_batch-recover_notification_batches_example :
    (claim_due_notification_batch null_serde
      (pos 50)
      (recover_notification_batches (pos 40) sending_db).1).0
    ≢ ok none
claim_due_notification_batch-recover_notification_batches_example =
    claim_due_notification_batch-recover_notification_batches null_serde (pos 40) (pos 50)
      sending_db 1 sent_batch sent_found (inr refl) refl

abbrev two_attempts : DeliveryConfig
two_attempts = record {
  max_attempts = 2;
  initial_backoff_millis = 1000;
  max_backoff_millis = 60000;
}

-- A target that is down at the first attempt.
abbrev down_once : World
down_once = record {
  answer = λ attempt.
      if leb 2 attempt then none else some (record { message = "503"; permanent = false });
  started = λ n. pos n;
  ended = λ n. pos n;
  read = λ n. pos n;
}

queued_found : find 1 batch_db.deliveries.rows ≡ some queued_delivery
unfolding find
queued_found = refl

run_from-EndedIn_example : EndedIn down_once 2 1 (run_from two_attempts down_once 1 1 batch_db).db
run_from-EndedIn_example =
    run_from-EndedIn two_attempts down_once 1 1 batch_db queued_delivery queued_found (omega arith)
      (omega arith)

run_from-InOrder_example :
    InOrder two_attempts 2 1 (run_from two_attempts down_once 1 1 batch_db)
    × (0 < length (run_from two_attempts down_once 1 1 batch_db).sends)
run_from-InOrder_example =
    run_from-InOrder two_attempts down_once 1 1 batch_db (omega arith) (omega arith) (omega arith)
      (omega arith)

abbrev not_found : ℕ
not_found = 404

disk_event-found : find 1 group_db.events.rows ≡ some disk_event
unfolding find
disk_event-found = refl

delivery_replay_record-queue_delivery_example :
    delivery_replay_record
      (constant_serde (request_summary to_chat))
      (queue_delivery (constant_serde (request_summary to_chat)) (pos 20) 1 to_chat group_db).1
      (queue_delivery (constant_serde (request_summary to_chat)) (pos 20) 1 to_chat group_db).0
    ≡ ok (record { event = disk_full; delivery = kept to_chat })
delivery_replay_record-queue_delivery_example =
    delivery_replay_record-queue_delivery (constant_serde (request_summary to_chat)) (pos 20)
      (pos 9) 1 1 disk_full to_chat group_db refl refl disk_event-found

-- The event of the batch has lost its normalized text.
abbrev broken_db : Db
broken_db = record batch_db {
  events = record { seq = 1; rows = (1, record disk_event { normalized_event = none }) ∷ [] };
}

broken_claim :
    (claim_due_notification_batch null_serde (pos 30) broken_db).0 ≡ err missing_event_data
unfolding claim_due_notification_batch Table.select_first Table.find
broken_claim = refl

-- A delivery that was being sent when the program stopped.
abbrev stopped_db : Db
stopped_db = record group_db {
  deliveries = record {
    seq = 1;
    rows =
        (1, record queued_delivery { status = DeliveryStatus.delivering; attempt_count = 1 }) ∷ [];
  };
}

abbrev recovered : List RecoveredDelivery
recovered =
    record {
      id = 1;
      event = disk_full;
      delivery = record (kept to_chat) { route_name = "replay" };
      next_attempt = 1;
    }
    ∷ []

stopped_db-recovery : (recover_deliveries null_serde (pos 60) stopped_db).0 ≡ ok recovered
unfolding recover_deliveries Table.find Table.exists_where replay_of Json.get
stopped_db-recovery = refl

stopped_db-IsFresh : IsFresh stopped_db.deliveries
stopped_db-IsFresh = (omega arith, omega arith, tt)

recover_deliveries-Recovered_example :
    Recovered (pos 60) stopped_db (recover_deliveries null_serde (pos 60) stopped_db).1 recovered
recover_deliveries-Recovered_example =
    recover_deliveries-Recovered null_serde (pos 60) stopped_db recovered stopped_db-IsFresh
      stopped_db-recovery

recover_deliveries_none_interrupted_example :
    AllRows
      (λ i d. is_interrupted stopped_db.members i d ≡ false)
      (recover_deliveries null_serde (pos 60) stopped_db).1.deliveries.rows
recover_deliveries_none_interrupted_example =
    recover_deliveries_none_interrupted null_serde (pos 60) stopped_db recovered stopped_db-recovery
