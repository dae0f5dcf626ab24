-- ===== src/Storage/Batches.antt =====
-- storage.rs: notification batches. Deliveries of one batch key are sent together.
pub mod Totals
pub mod Queue
pub mod Steps
pub mod Runs
use simple_alert_proxy.Prelude.{
  ℕ, ◌+◌, ◌≤◌, String, Bool, true, false, ◌&&◌, ◌||◌, Option, none, some, List, [], ◌∷◌, ◌==◌,
  str_eq, ltb, leb, unwrap_or, if◌then◌else◌, ◌++◌,
}
use simple_alert_proxy.Prelude.Int.{ℤ, pos, leb_ℤ, ltb_ℤ, i64_max, i64_try_from, i64_saturating_add}
use simple_alert_proxy.Table
use simple_alert_proxy.Table.{Table, find, update_where, exists_where, select_first, with_rows, at}
use simple_alert_proxy.Json.{Value, string, object, field, end}
use simple_alert_proxy.Alert.{AlertEvent, EventSerde}
use simple_alert_proxy.Routing.{Delivery}
use simple_alert_proxy.Storage.{
  Db, EventRow, DeliveryRow, DeliveryStatus, BatchRow, BatchStatus, MemberRow, Action, Result, ok,
  err, overflow, missing_event_data, invalid_event_data,
}
use simple_alert_proxy.Storage.Deliveries.{new_delivery}

pub record NotificationBatchLimits : Type 0 where
  pub group_wait_millis : ℕ
  pub max_events : ℕ
  pub max_payload_bytes : ℕ

-- `json!({"route": …, "receiver": …, "notification_batch": …})`
unfoldable pub batch_summary : Delivery → String → Value
batch_summary delivery key = object (
    field "notification_batch" (string key) (
      field "receiver" (string delivery.receiver) (field "route" (string delivery.route_name) end)))

unfoldable pub new_batch : String → Delivery → ℤ → ℕ → BatchRow
new_batch key delivery now wait = record {
  batch_key = key;
  receiver = delivery.receiver;
  route_name = delivery.route_name;
  owner_team = delivery.owner_team;
  escalation_policy = delivery.escalation_policy;
  status = BatchStatus.pending;
  due_at = i64_saturating_add now (unwrap_or (i64_try_from wait) (pos i64_max));
  attempt_count = 0;
  event_count = 0;
  payload_bytes = 0;
  last_error = none;
  created_at = now;
  updated_at = now;
}

-- Returns the batch's id.
unfoldable pub insert_notification_batch : String → Delivery → ℤ → ℕ → Db → ℕ × Db
unfolding new_batch Table.insert
insert_notification_batch key delivery now wait db = (
  db.batches.seq + 1,
  record db { batches = Table.insert (new_batch key delivery now wait) db.batches },
)

abbrev pub is_pending : BatchStatus → Bool
is_pending BatchStatus.pending = true
is_pending _ = false

-- ORDER BY id DESC
abbrev pub newer {ℓ} : {A : Type ℓ} → ℕ × A → ℕ × A → Bool
newer x y = ltb y.0 x.0

unfoldable pub open_batch : String → Db → Option (ℕ × BatchRow)
open_batch key db =
    select_first (λ _ b. str_eq b.batch_key key && is_pending b.status) newer db.batches.rows

abbrev pub update_batch : ℕ → (BatchRow → BatchRow) → Db → Db
update_batch id f db = record db {
  batches = with_rows db.batches (update_where (at id) f db.batches.rows);
}

-- WHERE id IN (SELECT delivery_record_id FROM notification_batch_members WHERE batch_id = …)
abbrev pub in_batch : List (ℕ × MemberRow) → ℕ → ℕ → DeliveryRow → Bool
in_batch members batch i d = exists_where (λ j m. j == i && m.batch_id == batch) members

abbrev pub update_member_deliveries : ℕ → (DeliveryRow → DeliveryRow) → Db → Db
update_member_deliveries batch f db = record db {
  deliveries =
      with_rows db.deliveries (update_where (in_batch db.members batch) f db.deliveries.rows);
}

-- `count < max_events && bytes.saturating_add(event_bytes) <= max_payload_bytes`; the sum saturates
-- at the largest `i64`, which no sum of payload sizes in a database reaches.
abbrev pub has_room : BatchRow → ℕ → NotificationBatchLimits → Bool
has_room b bytes limits =
    ltb b.event_count limits.max_events
    && leb (if leb (b.payload_bytes + bytes) i64_max then b.payload_bytes + bytes else i64_max)
        limits.max_payload_bytes

-- A batch with no room becomes due at once, and its deliveries with it.
unfoldable pub close_batch : ℕ → ℤ → Db → Db
close_batch id now db =
    update_member_deliveries id (λ d. record d { next_retry_at = some now; updated_at = now })
      (update_batch id (λ b. record b { due_at = now; updated_at = now }) db)

-- The `match existing`: the batch that takes the delivery.
unfoldable pub choose_batch : String → Delivery → ℤ → ℕ → NotificationBatchLimits → Db → ℕ × Db
unfolding open_batch close_batch insert_notification_batch
choose_batch key delivery now bytes limits db = elim (open_batch key db) [
  | none ↦ insert_notification_batch key delivery now limits.group_wait_millis db
  | some (id, b) ↦
      if has_room b bytes limits
      then (id, db)
      else insert_notification_batch key delivery now limits.group_wait_millis
          (close_batch id now db)
]

abbrev pub new_member : ℕ → ℕ → ℕ → ℤ → MemberRow
new_member batch event bytes now = record {
  batch_id = batch;
  alert_event_id = event;
  event_bytes = bytes;
  created_at = now;
}

-- The UPDATE that adds an event to a batch's totals.
unfoldable pub grow_batch : ℕ → ℤ → NotificationBatchLimits → BatchRow → BatchRow
grow_batch bytes now limits b = record b {
  event_count = b.event_count + 1;
  payload_bytes = b.payload_bytes + bytes;
  due_at =
      if leb limits.max_events (b.event_count + 1)
        || leb limits.max_payload_bytes (b.payload_bytes + bytes)
      then now
      else b.due_at;
  updated_at = now;
}

-- SELECT due_at FROM notification_batches WHERE id = …
abbrev pub batch_due : ℕ → Db → Option ℤ
batch_due id db = elim (find id db.batches.rows) [ none ↦ none | some b ↦ some b.due_at ]

unfoldable pub join_batch : ℕ → ℕ → ℕ → ℕ → ℤ → NotificationBatchLimits → Db → Db
unfolding grow_batch
join_batch batch delivery_id event bytes now limits db =
    let joined = record db {
      members = (delivery_id, new_member batch event bytes now) ∷ db.members;
    } in
    let grown = update_batch batch (grow_batch bytes now limits) joined in
    update_member_deliveries batch
      (λ d. record d { next_retry_at = batch_due batch grown; updated_at = now }) grown

-- The transaction of `queue_notification_batch`. Returns the delivery's id.
unfoldable pub queue_in_batch :
    EventSerde → ℤ → ℕ → ℕ → Delivery → String → NotificationBatchLimits → Db → ℕ × Db
unfolding choose_batch join_batch new_delivery batch_summary Table.insert
queue_in_batch serde now event bytes delivery key limits db =
    let queued = record db {
      deliveries =
          Table.insert
            (new_delivery event delivery.receiver
              (serde.value_to_string (batch_summary delivery key)) now)
            db.deliveries;
    } in
    let (batch, chosen) = choose_batch key delivery now bytes limits queued in
    (db.deliveries.seq + 1, join_batch batch (db.deliveries.seq + 1) event bytes now limits chosen)

-- The sizes are first converted to `i64`.
unfoldable pub queue_notification_batch :
    EventSerde → ℤ → ℕ → AlertEvent → Delivery → String → NotificationBatchLimits → Action ℕ
unfolding queue_in_batch
queue_notification_batch serde now event_id event delivery key limits db =
    let fits =
      leb (serde.event_len event) i64_max
      && leb limits.max_events i64_max
      && leb limits.max_payload_bytes i64_max in
    let done = queue_in_batch serde now event_id (serde.event_len event) delivery key limits db in
    if fits then (ok done.0, done.1) else (err overflow, db)
