-- ===== src/Pipeline/Anchors.antt =====
-- main.rs: the steps of a webhook on an event that is stored with its group.
use simple_alert_proxy.Prelude.{
  ℕ, ◌+◌, ◌≤◌, String, Bool, Option, some, List, [], ◌∷◌, ◌≡◌, refl, arith, ◌==◌, ==_refl,
  Option-cases, Bool-cases, inl, inr,
}
use simple_alert_proxy.Prelude.Int.{ℤ, i64_max}
use simple_alert_proxy.Table
use simple_alert_proxy.Table.{Table, find, update_where, at}
use simple_alert_proxy.Alert.{AlertEvent, EventSerde}
use simple_alert_proxy.Routing.{Delivery}
use simple_alert_proxy.Storage.{Db, EventRow, GroupRow, ok}
use simple_alert_proxy.Storage.Groups.{
  find_group, has_key, touch_group, new_group, upsert_alert_group, owner_team_id, event_row,
  store_event_with_team,
}
use simple_alert_proxy.Storage.Batches.{
  NotificationBatchLimits, join_batch, queue_in_batch, queue_notification_batch,
}
use simple_alert_proxy.Storage.Batches.Queue.{queued_db, choose_batch-seq}
use simple_alert_proxy.Storage.Escalation.{queue_escalation, schedule, group_allows_escalation}
use simple_alert_proxy.Pipeline.Frames.{}

-- The event is stored with a group that is there.
pub record IsAnchored (id : ℕ) (db : Db) : Type 0 where
  pub row : EventRow
  pub group : ℕ
  pub owner : GroupRow
  pub stored : find id db.events.rows ≡ some row
  pub grouped : row.alert_group_id ≡ some group
  pub found : find group db.groups.rows ≡ some owner

pub IsAnchored-same :
    (id : ℕ) (before after : Db)
    → after.groups ≡ before.groups
    → after.events ≡ before.events
    → IsAnchored id before
    → IsAnchored id after
IsAnchored-same id before after g e h = record {
  row = h.row;
  group = h.group;
  owner = h.owner;
  stored = rw e h.stored;
  grouped = h.grouped;
  found = rw g h.found;
}

-- A group that its key selects is there under its id, also after an UPDATE of it.
find-find_group :
    (ns fp : String) (i : ℕ) (g : GroupRow) (f : GroupRow → GroupRow) (l : List (ℕ × GroupRow))
    → find_group ns fp l ≡ some (i, g)
    → (h : GroupRow) × (find i (update_where (at i) f l) ≡ some h)
unfolding find_group find update_where
find-find_group ns fp i g f [] e = ground arith
find-find_group ns fp i g f ((j, x) ∷ rest) e = elim (Bool-cases (j == i)) [
  | inl p ↦ (f x, ground arith)
  | inr p ↦ elim (Bool-cases (has_key ns fp x)) [
    | inl q ↦ ground (arith, ==_refl j)
    | inr q ↦ let (h, r) = find-find_group ns fp i g f rest (ground arith) in (h, ground arith)
  ]
]

find-upsert_alert_group :
    (event : AlertEvent) (team : Option ℕ) (now : ℤ) (groups : Table GroupRow)
    → (h : GroupRow) × (find
          (upsert_alert_group event team now groups).0
          (upsert_alert_group event team now groups).1.rows
        ≡ some h)
unfolding upsert_alert_group Table.insert find
find-upsert_alert_group event team now groups =
    elim (Option-cases (find_group event.group_namespace event.fingerprint groups.rows)) [
      | inl e ↦ (new_group event team now, ground (arith, ==_refl (groups.seq + 1)))
      | inr ((id, g), e) ↦
          let (h, r) =
            find-find_group event.group_namespace event.fingerprint id g
              (touch_group event team now) groups.rows e in
          (h, ground arith)
    ]

pub store_event_with_team-IsAnchored :
    (serde : EventSerde) (now : ℤ) (event : AlertEvent) (team : Option String) (db : Db)
    → IsAnchored
        (store_event_with_team serde now event team db).0
        (store_event_with_team serde now event team db).1
unfolding store_event_with_team Table.insert find
store_event_with_team-IsAnchored serde now event team db =
    let upserted = upsert_alert_group event (owner_team_id db team) now db.groups in
    let (h, r) = find-upsert_alert_group event (owner_team_id db team) now db.groups in
    record {
      row = event_row serde event upserted.0 now;
      group = upserted.0;
      owner = h;
      stored = ground (arith, ==_refl (db.events.seq + 1));
      grouped = refl;
      found = r;
    }

-- On an anchored event an escalation is queued, or not allowed, but does not fail.
pub queue_escalation-ok :
    (now : ℤ) (id : ℕ) (policy : String) (delay : ℕ) (on_ack on_resolve : Bool) (db : Db)
    → IsAnchored id db
    → (queue_escalation now id policy delay on_ack on_resolve db).0 ≡ ok tt
unfolding queue_escalation schedule group_allows_escalation
queue_escalation-ok now id policy delay on_ack on_resolve db h =
    ground (arith, h.stored, h.grouped, h.found)

abbrev pub Fits : EventSerde → NotificationBatchLimits → AlertEvent → Type 0
Fits serde limits event =
    (serde.event_len event ≤ i64_max)
    × (limits.max_events ≤ i64_max)
    × (limits.max_payload_bytes ≤ i64_max)

queue_in_batch-seq :
    (serde : EventSerde) (now : ℤ) (id bytes : ℕ) (delivery : Delivery) (key : String)
    (limits : NotificationBatchLimits) (db : Db)
    → (queue_in_batch serde now id bytes delivery key limits db).1.deliveries.seq
      ≡ db.deliveries.seq + 1
unfolding queue_in_batch join_batch Table.insert
queue_in_batch-seq serde now id bytes delivery key limits db =
    choose_batch-seq key delivery now bytes limits (queued_db serde now id delivery key db)

-- Where the sizes are `i64`s, queueing in a batch succeeds, and makes one delivery record.
pub queue_notification_batch-ok :
    (serde : EventSerde) (now : ℤ) (id : ℕ) (event : AlertEvent) (delivery : Delivery)
    (key : String) (limits : NotificationBatchLimits) (db : Db)
    → Fits serde limits event
    → let r = queue_notification_batch serde now id event delivery key limits db in
      (r.0 ≡ ok (db.deliveries.seq + 1)) × (r.1.deliveries.seq ≡ db.deliveries.seq + 1)
unfolding queue_notification_batch queue_in_batch
queue_notification_batch-ok serde now id event delivery key limits db (a, b, c) =
    let seq = queue_in_batch-seq serde now id (serde.event_len event) delivery key limits db in
    (ground arith, ground (arith, seq))
