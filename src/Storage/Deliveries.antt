-- ===== src/Storage/Deliveries.antt =====
-- storage.rs: delivery records, one for each event and target, and what a replay rebuilds of them.
pub mod Replay
pub mod Recovery
pub mod Requeue
use simple_alert_proxy.Prelude.{
  ℕ, ◌+◌, String, Bool, true, false, ◌&&◌, Option, none, some, List, [], ◌∷◌, ◌==◌, max, not,
  unwrap_or, if◌then◌else◌, ◌++◌,
}
use simple_alert_proxy.Prelude.Int.{ℤ, u32_saturating_add}
use simple_alert_proxy.Table
use simple_alert_proxy.Table.{Table, find, update_where, exists_where, with_rows, at}
use simple_alert_proxy.Json
use simple_alert_proxy.Json.{Value, null, string, object, field, end, as_str}
use simple_alert_proxy.Alert.{AlertEvent, EventSerde}
use simple_alert_proxy.Routing.{Delivery}
use simple_alert_proxy.Storage.{
  Db, EventRow, DeliveryRow, DeliveryStatus, MemberRow, AuditActor, Action, Result, ok, err,
  delivery_not_found, no_rows,
}
use simple_alert_proxy.Storage.Groups.{insert_audit}

-- `json!({"route": …, "receiver": …})`, whose keys serde_json sorts
unfoldable pub request_summary : Delivery → Value
request_summary delivery =
    object
      (field "receiver" (string delivery.receiver) (field "route" (string delivery.route_name) end))

unfoldable pub new_delivery : ℕ → String → String → ℤ → DeliveryRow
new_delivery event target summary now = record {
  alert_event_id = event;
  target = target;
  status = DeliveryStatus.queued;
  attempt_count = 0;
  next_retry_at = some now;
  last_error = none;
  request_summary = summary;
  response_summary = none;
  created_at = now;
  updated_at = now;
}

-- Returns the delivery's id.
unfoldable pub queue_delivery : EventSerde → ℤ → ℕ → Delivery → Db → ℕ × Db
unfolding Table.insert new_delivery request_summary
queue_delivery serde now event delivery db = (
  db.deliveries.seq + 1,
  record db {
    deliveries =
        Table.insert
          (new_delivery event delivery.receiver (serde.value_to_string (request_summary delivery))
            now)
          db.deliveries;
  },
)

abbrev pub update_delivery : ℕ → (DeliveryRow → DeliveryRow) → Db → Db
update_delivery id f db = record db {
  deliveries = with_rows db.deliveries (update_where (at id) f db.deliveries.rows);
}

unfoldable pub mark_attempt : ℤ → ℕ → ℕ → Db → Db
mark_attempt now id attempt = update_delivery id (λ d. record d {
  status = DeliveryStatus.delivering;
  attempt_count = attempt;
  next_retry_at = none;
  updated_at = now;
})

unfoldable pub mark_succeeded : ℤ → ℕ → String → Db → Db
mark_succeeded now id response = update_delivery id (λ d. record d {
  status = DeliveryStatus.succeeded;
  next_retry_at = none;
  last_error = none;
  response_summary = some response;
  updated_at = now;
})

unfoldable pub mark_retrying : ℤ → ℕ → ℤ → String → Db → Db
mark_retrying now id next_retry_at error = update_delivery id (λ d. record d {
  status = DeliveryStatus.retrying;
  next_retry_at = some next_retry_at;
  last_error = some error;
  updated_at = now;
})

unfoldable pub mark_dead_letter : ℤ → ℕ → String → Db → Db
mark_dead_letter now id error = update_delivery id (λ d. record d {
  status = DeliveryStatus.dead_letter;
  next_retry_at = none;
  last_error = some error;
  updated_at = now;
})

pub record DeliveryReplayRecord : Type 0 where
  pub event : AlertEvent
  pub delivery : Delivery

-- The event that the columns of a row give when it has no normalized event.
unfoldable pub fallback_event : EventSerde → EventRow → AlertEvent
fallback_event serde row = record {
  event_id = row.event_id;
  integration = row.integration;
  group_namespace = row.group_namespace;
  source = row.source;
  received_at = none;
  status = row.status;
  severity = row.severity;
  title = row.title;
  body = none;
  labels = [];
  annotations = [];
  links = [];
  starts_at = none;
  ends_at = none;
  fingerprint = row.fingerprint;
  notification_group_key = none;
  instances = [];
  raw_payload = unwrap_or (serde.value_from_string row.raw_payload) null;
}

abbrev pub parsed_event : EventSerde → Option String → Option AlertEvent
parsed_event serde none = none
parsed_event serde (some text) = serde.event_from_string text

unfoldable pub stored_event : EventSerde → EventRow → AlertEvent
unfolding fallback_event
stored_event serde row =
    unwrap_or (parsed_event serde row.normalized_event) (fallback_event serde row)

-- `request_summary.get(key).and_then(as_str)`
abbrev pub summary_text : Value → String → Option String
summary_text v key = elim (Json.get v key) [ none ↦ none | some t ↦ as_str t ]

unfoldable pub replay_of : EventSerde → DeliveryRow → EventRow → DeliveryReplayRecord
unfolding stored_event
replay_of serde d e =
    let summary = unwrap_or (serde.value_from_string d.request_summary) null in
    record {
      event = stored_event serde e;
      delivery = record {
        route_name = unwrap_or (summary_text summary "route") "replay";
        receiver = unwrap_or (summary_text summary "receiver") d.target;
        owner_team = none;
        escalation_policy = none;
        group_by = [];
      };
    }

unfoldable pub delivery_replay_record : EventSerde → Db → ℕ → Result DeliveryReplayRecord
delivery_replay_record serde db id = elim (find id db.deliveries.rows) [
  | none ↦ err no_rows
  | some d ↦ elim (find d.alert_event_id db.events.rows) [
    | none ↦ err no_rows
    | some e ↦ ok (replay_of serde d e)
  ]
]

abbrev pub requeue : ℤ → DeliveryRow → DeliveryRow
requeue now d = record d {
  status = DeliveryStatus.queued;
  next_retry_at = some now;
  updated_at = now;
}

unfoldable pub replay_delivery_as : EventSerde → ℤ → ℕ → AuditActor → Action DeliveryReplayRecord
unfolding insert_audit delivery_replay_record
replay_delivery_as serde now id actor db =
    if exists_where (at id) db.deliveries.rows
    then elim (delivery_replay_record serde db id) [
      | err e ↦ (err e, db)
      | ok replay ↦ (
        ok replay,
        insert_audit none (some id) actor "replay" none now
            (update_delivery id (λ d. record (requeue now d) { last_error = none }) db),
      )
    ]
    else (err delivery_not_found, db)

pub record RecoveredDelivery : Type 0 where
  pub id : ℕ
  pub event : AlertEvent
  pub delivery : Delivery
  pub next_attempt : ℕ

-- WHERE status IN ('queued', 'delivering', 'retrying')
abbrev pub is_open : DeliveryStatus → Bool
is_open DeliveryStatus.queued = true
is_open DeliveryStatus.delivering = true
is_open DeliveryStatus.retrying = true
is_open _ = false

unfoldable pub next_attempt : DeliveryStatus → ℕ → ℕ
next_attempt DeliveryStatus.delivering count = max count 1
next_attempt DeliveryStatus.retrying count = max (u32_saturating_add count 1) 1
next_attempt _ count = 1

-- The query of `recover_deliveries`, in ascending order of ids, and its members are left out.
unfoldable pub interrupted : List (ℕ × MemberRow) → List (ℕ × DeliveryRow) → List (ℕ × DeliveryRow)
interrupted members [] = []
interrupted members ((i, d) ∷ rest) =
    let others = interrupted members rest in
    if is_open d.status && not (exists_where (at i) members) then others ++ (i, d) ∷ [] else others

-- The loop of `recover_deliveries`. A record that cannot be rebuilt ends it, and what was requeued
-- before stays requeued.
unfoldable pub recover_loop :
    EventSerde
    → ℤ
    → List (ℕ × DeliveryRow)
    → List RecoveredDelivery
    → Action (List RecoveredDelivery)
unfolding next_attempt delivery_replay_record
recover_loop serde now [] recovered db = (ok recovered, db)
recover_loop serde now ((id, d) ∷ rest) recovered db = elim (delivery_replay_record serde db id) [
  | err e ↦ (err e, db)
  | ok replay ↦
      recover_loop serde now rest
        (recovered
          ++ (record {
            id = id;
            event = replay.event;
            delivery = replay.delivery;
            next_attempt = next_attempt d.status d.attempt_count;
          })
            ∷ [])
        (update_delivery id (requeue now) db)
]

unfoldable pub recover_deliveries : EventSerde → ℤ → Action (List RecoveredDelivery)
unfolding recover_loop interrupted
recover_deliveries serde now db =
    recover_loop serde now (interrupted db.members db.deliveries.rows) [] db
