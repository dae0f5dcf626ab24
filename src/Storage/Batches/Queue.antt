-- ===== src/Storage/Batches/Queue.antt =====
-- storage.rs, `queue_notification_batch`: the totals of the batches that it leaves, and
-- their limits, which a batch of one event may exceed in bytes.
use simple_alert_proxy.Prelude.{
  ℕ, ◌+◌, ◌-◌, ◌≤◌, ◌<◌, String, Bool, true, false, none, some, List, ◌∷◌, ◌==◌, if◌then◌else◌, ◌≡◌,
  refl, sym, arith, Option-cases, Bool-cases, inl, inr, subst,
}
use simple_alert_proxy.Prelude.Int.{ℤ, i64_max}
use simple_alert_proxy.Table
use simple_alert_proxy.Table.{Table, find, update_where, count_where, sum_where, at}
use simple_alert_proxy.Table.Laws.{
  Fresh-mono, AllRows-mono, AllRows-and, Fresh-AllRows, AllRows-update_where_into,
  Fresh-update_where, insert-IsFresh, find_unique, select_first-find, find-AllRows,
}
use simple_alert_proxy.Alert.{AlertEvent, EventSerde}
use simple_alert_proxy.Routing.{Delivery}
use simple_alert_proxy.Storage.{Db, BatchRow, MemberRow, Result, ok, err, overflow}
use simple_alert_proxy.Storage.Deliveries.{new_delivery}
use simple_alert_proxy.Storage.Batches.{
  NotificationBatchLimits, insert_notification_batch, newer, open_batch, has_room, close_batch,
  choose_batch, new_member, join_batch, queue_in_batch, batch_summary, queue_notification_batch,
}
use simple_alert_proxy.Storage.Batches.Totals.{
  member_of, bytes_of, Totalled, IsTotalled, IsWithinUnlessSingle, close_batch-Totalled, Chosen,
  insert-Chosen,
}

module _ (n : ℕ) (key : String) (delivery : Delivery) (now : ℤ) (bytes : ℕ)
    (limits : NotificationBatchLimits) (db : Db) where
  choose_none :
      open_batch key db ≡ none
      → choose_batch key delivery now bytes limits db
        ≡ insert_notification_batch key delivery now limits.group_wait_millis db
  unfolding choose_batch
  choose_none e = ground arith

  choose_some :
      (id : ℕ) (b : BatchRow)
      → open_batch key db ≡ some (id, b)
      → choose_batch key delivery now bytes limits db ≡ (
          if has_room b bytes limits
          then (id, db)
          else insert_notification_batch key delivery now limits.group_wait_millis
              (close_batch id now db))
  unfolding choose_batch
  choose_some id b e = ground arith

  open_batch-find :
      (id : ℕ) (b : BatchRow)
      → Totalled n db
      → open_batch key db ≡ some (id, b)
      → find id db.batches.rows ≡ some b
  unfolding open_batch
  open_batch-find id b h e =
      select_first-find db.batches.seq _ newer db.batches.rows h.batches_fresh e

  close_batch-IsWithinUnlessSingle :
      (id : ℕ)
      → IsWithinUnlessSingle limits db
      → IsWithinUnlessSingle limits (close_batch id now db)
  unfolding close_batch
  close_batch-IsWithinUnlessSingle id w =
      AllRows-update_where_into _ _ (at id) _ (λ i b t. ground arith) db.batches.rows w

  known-Chosen :
      (id : ℕ) (b : BatchRow)
      → limits.max_payload_bytes < i64_max
      → Totalled n db
      → IsWithinUnlessSingle limits db
      → find id db.batches.rows ≡ some b
      → has_room b bytes limits ≡ true
      → Chosen n bytes limits (id, db)
  known-Chosen id b small h w e room = record {
    totalled = h;
    known =
        (find-AllRows (λ i _. (1 ≤ i) × (i ≤ db.batches.seq)) id db.batches.rows
          (Fresh-AllRows db.batches.seq db.batches.rows h.batches_fresh) e).1;
    room =
        AllRows-mono _ _ (λ i x same p. let q : x ≡ b = same p in rw q (ground arith))
          db.batches.rows (find_unique db.batches.seq id db.batches.rows h.batches_fresh e);
    within = w;
  }

  pub choose_batch-Chosen :
      1 ≤ limits.max_events
      → limits.max_payload_bytes < i64_max
      → Totalled n db
      → IsWithinUnlessSingle limits db
      → Chosen n bytes limits (choose_batch key delivery now bytes limits db)
  choose_batch-Chosen one small h w = elim (Option-cases (open_batch key db)) [
    | inl e ↦ rw (choose_none e) (insert-Chosen n key delivery now bytes limits db one h w)
    | inr ((id, b), e) ↦ rw (choose_some id b e) (elim (Bool-cases (has_room b bytes limits)) [
      | inl room ↦ rw room (known-Chosen id b small h w (open_batch-find id b h e) room)
      | inr full ↦ rw full (
          insert-Chosen n key delivery now bytes limits (close_batch id now db) one
            (close_batch-Totalled n id now db h) (close_batch-IsWithinUnlessSingle id w))
    ])
  ]

-- One more member counts for its own batch only.
member_after :
    (batch i delivery event bytes : ℕ) (now : ℤ) (members : List (ℕ × MemberRow))
    → (count_where (member_of i) ((delivery, new_member batch event bytes now) ∷ members)
        ≡ (if batch == i then 1 else 0) + count_where (member_of i) members)
      × (sum_where (member_of i) bytes_of ((delivery, new_member batch event bytes now) ∷ members)
          ≡ (if batch == i then bytes else 0) + sum_where (member_of i) bytes_of members)
unfolding count_where sum_where
member_after batch i delivery event bytes now members = (refl, refl)

module _ (n batch delivery_id event bytes : ℕ) (now : ℤ) (limits : NotificationBatchLimits)
    (db : Db) where
  join_batch-Totalled :
      n < delivery_id
      → Chosen n bytes limits (batch, db)
      → Totalled delivery_id (join_batch batch delivery_id event bytes now limits db)
  unfolding join_batch
  join_batch-Totalled lt c = record {
    batches_fresh =
        Fresh-update_where db.batches.seq (at batch) _ db.batches.rows c.totalled.batches_fresh;
    deliveries_fresh =
        Fresh-update_where db.deliveries.seq _ _ db.deliveries.rows c.totalled.deliveries_fresh;
    members_fresh = (
      omega arith,
      omega arith,
      Fresh-mono n (delivery_id - 1) db.members (omega arith) c.totalled.members_fresh,
    );
    owned = (c.known, c.totalled.owned);
    totals =
        AllRows-update_where_into _ _ (at batch) _
          (λ i b t. ground (arith, member_after batch i delivery_id event bytes now db.members))
          db.batches.rows c.totalled.totals;
  }

  join_batch-IsWithinUnlessSingle :
      Chosen n bytes limits (batch, db)
      → IsWithinUnlessSingle limits (join_batch batch delivery_id event bytes now limits db)
  unfolding join_batch
  join_batch-IsWithinUnlessSingle c =
      AllRows-update_where_into _ _ (at batch) _ (λ i b t. ground (arith, t.1)) db.batches.rows
        (AllRows-and _ _ db.batches.rows c.within c.room)

abbrev pub queued_db : EventSerde → ℤ → ℕ → Delivery → String → Db → Db
queued_db serde now event delivery key db = record db {
  deliveries =
      Table.insert
        (new_delivery event delivery.receiver (serde.value_to_string (batch_summary delivery key))
          now)
        db.deliveries;
}

queued-Totalled :
    (serde : EventSerde) (now : ℤ) (event : ℕ) (delivery : Delivery) (key : String) (db : Db)
    → IsTotalled db
    → Totalled db.deliveries.seq (queued_db serde now event delivery key db)
queued-Totalled serde now event delivery key db h = record {
  batches_fresh = h.batches_fresh;
  deliveries_fresh = insert-IsFresh _ db.deliveries h.deliveries_fresh;
  members_fresh = h.members_fresh;
  owned = h.owned;
  totals = h.totals;
}

pub choose_batch-seq :
    (key : String) (delivery : Delivery) (now : ℤ) (bytes : ℕ) (limits : NotificationBatchLimits)
    (db : Db)
    → (choose_batch key delivery now bytes limits db).1.deliveries.seq ≡ db.deliveries.seq
unfolding choose_batch
choose_batch-seq key delivery now bytes limits db = ground arith

queue_in_batch-IsTotalled :
    (serde : EventSerde) (now : ℤ) (event bytes : ℕ) (delivery : Delivery) (key : String)
    (limits : NotificationBatchLimits) (db : Db)
    → 1 ≤ limits.max_events
    → limits.max_payload_bytes < i64_max
    → IsTotalled db
    → IsWithinUnlessSingle limits db
    → IsTotalled (queue_in_batch serde now event bytes delivery key limits db).1
      × IsWithinUnlessSingle limits (queue_in_batch serde now event bytes delivery key limits db).1
unfolding queue_in_batch join_batch
queue_in_batch-IsTotalled serde now event bytes delivery key limits db one small h w =
    let q = queued_db serde now event delivery key db in
    let c = choose_batch key delivery now bytes limits q in
    let n = db.deliveries.seq in
    let chosen : Chosen n bytes limits c =
      choose_batch-Chosen n key delivery now bytes limits q one small
        (queued-Totalled serde now event delivery key db h) w in
    let same : c.1.deliveries.seq ≡ n + 1 = choose_batch-seq key delivery now bytes limits q in
    (
      subst (λ m. Totalled m (join_batch c.0 (n + 1) event bytes now limits c.1)) (sym same)
          (join_batch-Totalled n c.0 (n + 1) event bytes now limits c.1 (omega arith) chosen),
      join_batch-IsWithinUnlessSingle n c.0 (n + 1) event bytes now limits c.1 chosen,
    )

-- Queueing a delivery in a batch keeps every batch's event count and payload size equal to those of
-- its members, and keeps every batch at no more than `max_events` members, and at no more than
-- `max_payload_bytes` bytes or one member (an event above that limit has a batch of its own), if at
-- least one event is allowed and the payload limit is below the largest `i64`.
pub queue_notification_batch-IsTotalled :
    (serde : EventSerde) (now : ℤ) (event_id : ℕ) (event : AlertEvent) (delivery : Delivery)
    (key : String) (limits : NotificationBatchLimits) (db : Db)
    → 1 ≤ limits.max_events
    → limits.max_payload_bytes < i64_max
    → IsTotalled db
    → IsWithinUnlessSingle limits db
    → IsTotalled (queue_notification_batch serde now event_id event delivery key limits db).1
      × IsWithinUnlessSingle limits
          (queue_notification_batch serde now event_id event delivery key limits db).1
unfolding queue_notification_batch
queue_notification_batch-IsTotalled serde now event_id event delivery key limits db one small h w =
    split _ (
      queue_in_batch-IsTotalled serde now event_id (serde.event_len event) delivery key limits db
        one small h w)
  where
    done : ℕ × Db
    done = queue_in_batch serde now event_id (serde.event_len event) delivery key limits db

    split :
        (fits : Bool)
        → IsTotalled done.1 × IsWithinUnlessSingle limits done.1
        → let r : Result ℕ × Db = if fits then (ok done.0, done.1) else (err overflow, db) in
          IsTotalled r.1 × IsWithinUnlessSingle limits r.1
    split true p = p
    split false p = (h, w)
