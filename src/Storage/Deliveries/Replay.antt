-- ===== src/Storage/Deliveries/Replay.antt =====
-- What a replay rebuilds of a queued delivery.
use simple_alert_proxy.Prelude.{ℕ, ◌+◌, none, some, [], ◌≡◌, refl, ap, ◌∙◌, arith, ==_refl}
use simple_alert_proxy.Prelude.Int.{ℤ}
use simple_alert_proxy.Table
use simple_alert_proxy.Table.{find}
use simple_alert_proxy.Json
use simple_alert_proxy.Json.{as_str}
use simple_alert_proxy.Alert.{AlertEvent, EventSerde}
use simple_alert_proxy.Routing.{Delivery}
use simple_alert_proxy.Storage.{Db, EventRow, DeliveryRow, ok}
use simple_alert_proxy.Storage.Groups.{event_row}
use simple_alert_proxy.Storage.Deliveries.{
  request_summary, new_delivery, queue_delivery, parsed_event, stored_event, replay_of,
  delivery_replay_record,
}

-- The route and the receiver, without what the record of a delivery does not keep.
abbrev pub kept : Delivery → Delivery
kept delivery = record {
  route_name = delivery.route_name;
  receiver = delivery.receiver;
  owner_team = none;
  escalation_policy = none;
  group_by = [];
}

record_found :
    (serde : EventSerde) (db : Db) (id : ℕ) (d : DeliveryRow) (e : EventRow)
    → find id db.deliveries.rows ≡ some d
    → find d.alert_event_id db.events.rows ≡ some e
    → delivery_replay_record serde db id ≡ ok (replay_of serde d e)
unfolding delivery_replay_record
record_found serde db id d e p q = ground arith

rebuilt :
    (serde : EventSerde) (d : DeliveryRow) (e : EventRow) (event : AlertEvent) (delivery : Delivery)
    → parsed_event serde e.normalized_event ≡ some event
    → serde.value_from_string d.request_summary ≡ some (request_summary delivery)
    → replay_of serde d e ≡ record { event = event; delivery = kept delivery }
unfolding replay_of stored_event request_summary Json.get as_str
rebuilt serde d e event delivery reads summary = rw (reads, summary) refl

-- Where the JSON texts of the event and of the delivery's summary are read back as what they were
-- printed from, a replay of a queued delivery rebuilds the event, the route and the receiver.
pub delivery_replay_record-queue_delivery :
    (serde : EventSerde) (now stored_at : ℤ) (id group : ℕ) (event : AlertEvent)
    (delivery : Delivery) (db : Db)
    → serde.event_from_string (serde.event_to_string event) ≡ some event
    → serde.value_from_string (serde.value_to_string (request_summary delivery))
      ≡ some (request_summary delivery)
    → find id db.events.rows ≡ some (event_row serde event group stored_at)
    → delivery_replay_record serde
        (queue_delivery serde now id delivery db).1
        (queue_delivery serde now id delivery db).0
      ≡ ok (record { event = event; delivery = kept delivery })
unfolding queue_delivery Table.insert find new_delivery
delivery_replay_record-queue_delivery serde now stored_at id group event delivery db reads summary
      stored =
    record_found serde (queue_delivery serde now id delivery db).1
      (queue_delivery serde now id delivery db).0
      (new_delivery id delivery.receiver (serde.value_to_string (request_summary delivery)) now)
      (event_row serde event group stored_at) (rw (==_refl (db.deliveries.seq + 1)) refl) stored
    ∙ ap ok (rebuilt serde _ _ event delivery reads summary)
