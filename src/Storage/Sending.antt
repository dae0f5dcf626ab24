-- ===== src/Storage/Sending.antt =====
-- storage.rs: recovering, claiming and finishing notification batches.
pub mod Claims
pub mod Recovery
use simple_alert_proxy.Prelude.{
  ℕ, ◌+◌, ◌≤◌, String, Bool, true, false, ◌&&◌, ◌||◌, Option, none, some, List, [], ◌∷◌, ◌==◌,
  str_eq, ltb, leb, unwrap_or, if◌then◌else◌, ◌++◌,
}
use simple_alert_proxy.Prelude.Int.{ℤ, pos, leb_ℤ, ltb_ℤ, i64_max, i64_try_from, i64_saturating_add}
use simple_alert_proxy.Table
use simple_alert_proxy.Table.{Table, find, update_where, exists_where, select_first, with_rows, at}
use simple_alert_proxy.Json.{Value, string, object, field, end}
use simple_alert_proxy.Alert.{AlertEvent, EventSerde}
use simple_alert_proxy.Routing.{Delivery}
use simple_alert_proxy.Storage.{
  Db, EventRow, DeliveryRow, DeliveryStatus, BatchRow, BatchStatus, MemberRow, Action, Result, ok,
  err, overflow, missing_event_data, invalid_event_data,
}
use simple_alert_proxy.Storage.Batches.{is_pending, update_batch, update_member_deliveries}

-- WHERE status IN ('pending', 'delivering')
abbrev pub is_unsent : BatchStatus → Bool
is_unsent BatchStatus.pending = true
is_unsent BatchStatus.delivering = true
is_unsent _ = false

abbrev pub is_waiting : DeliveryStatus → Bool
is_waiting DeliveryStatus.queued = true
is_waiting DeliveryStatus.delivering = true
is_waiting _ = false

abbrev pub has_pending_batch : Db → ℕ → Bool
has_pending_batch db i =
    exists_where
      (λ j m.
        j == i && exists_where (λ b row. b == m.batch_id && is_pending row.status) db.batches.rows)
      db.members

-- Returns the number of batches recovered.
unfoldable pub recover_notification_batches : ℤ → Db → ℕ × Db
unfolding Table.count_where
recover_notification_batches now db =
    let batched = record db {
      batches = with_rows db.batches (
          update_where (λ _ b. is_unsent b.status)
            (λ b. record b { status = BatchStatus.pending; due_at = now; updated_at = now })
            db.batches.rows);
    } in
    (
      Table.count_where (λ _ b. is_unsent b.status) db.batches.rows,
      record batched {
        deliveries = with_rows db.deliveries (
            update_where (λ i d. is_waiting d.status && has_pending_batch batched i)
              (λ d. record d {
                status = DeliveryStatus.queued;
                next_retry_at = some now;
                updated_at = now;
              })
              db.deliveries.rows);
      },
    )

pub record ClaimedNotificationBatch : Type 0 where
  pub id : ℕ
  pub batch_key : String
  pub delivery : Delivery
  pub attempt : ℕ
  pub members : List AlertEvent

abbrev pub is_claimable : BatchStatus → Bool
is_claimable BatchStatus.pending = true
is_claimable BatchStatus.retrying = true
is_claimable _ = false

-- ORDER BY due_at ASC, id ASC
abbrev pub sooner : ℕ × BatchRow → ℕ × BatchRow → Bool
sooner x y =
    if ltb_ℤ x.1.due_at y.1.due_at then true else leb_ℤ x.1.due_at y.1.due_at && ltb x.0 y.0

unfoldable pub due_batch : ℤ → Db → Option (ℕ × BatchRow)
due_batch now db =
    select_first (λ _ b. is_claimable b.status && leb_ℤ b.due_at now) sooner db.batches.rows

-- The members' events, in ascending order of their deliveries. The join drops a member whose event
-- is gone.
unfoldable pub batch_events : EventSerde → ℕ → Db → List (ℕ × MemberRow) → Result (List AlertEvent)
batch_events serde batch db [] = ok []
batch_events serde batch db ((i, m) ∷ rest) =
    let others = batch_events serde batch db rest in
    if m.batch_id == batch
    then elim (find m.alert_event_id db.events.rows) [
      | none ↦ others
      | some e ↦ elim others [
        | err x ↦ err x
        | ok events ↦ elim e.normalized_event [
          | none ↦ err missing_event_data
          | some text ↦ elim (serde.event_from_string text) [
            | none ↦ err invalid_event_data
            | some event ↦ ok (events ++ event ∷ [])
          ]
        ]
      ]
    ]
    else others

abbrev pub mark_delivering : ℕ → ℤ → DeliveryRow → DeliveryRow
mark_delivering attempt now d = record d {
  status = DeliveryStatus.delivering;
  attempt_count = attempt;
  next_retry_at = none;
  last_error = none;
  updated_at = now;
}

abbrev pub start_delivering : ℕ → ℕ → ℤ → Db → Db
start_delivering id attempt now db = update_member_deliveries id (mark_delivering attempt now) (
    update_batch id
      (λ b. record b {
        status = BatchStatus.delivering;
        attempt_count = attempt;
        last_error = none;
        updated_at = now;
      })
      db)

-- A transaction: an error leaves the database as it was.
unfoldable pub claim_due_notification_batch :
    EventSerde → ℤ → Action (Option ClaimedNotificationBatch)
unfolding due_batch batch_events
claim_due_notification_batch serde now db = elim (due_batch now db) [
  | none ↦ (ok none, db)
  | some (id, b) ↦ elim (batch_events serde id db db.members) [
    | err e ↦ (err e, db)
    | ok events ↦ (
      ok (
          some (record {
            id = id;
            batch_key = b.batch_key;
            delivery = record {
              route_name = b.route_name;
              receiver = b.receiver;
              owner_team = b.owner_team;
              escalation_policy = b.escalation_policy;
              group_by = [];
            };
            attempt = b.attempt_count + 1;
            members = events;
          })),
      start_delivering id (b.attempt_count + 1) now db,
    )
  ]
]

abbrev pub delivery_status : BatchStatus → DeliveryStatus
delivery_status BatchStatus.pending = DeliveryStatus.queued
delivery_status BatchStatus.delivering = DeliveryStatus.delivering
delivery_status BatchStatus.retrying = DeliveryStatus.retrying
delivery_status BatchStatus.succeeded = DeliveryStatus.succeeded
delivery_status BatchStatus.dead_letter = DeliveryStatus.dead_letter

abbrev pub is_succeeded : BatchStatus → Bool
is_succeeded BatchStatus.succeeded = true
is_succeeded _ = false

unfoldable pub finish_notification_batch : ℤ → ℕ → BatchStatus → Option ℤ → Option String → Db → Db
finish_notification_batch now id status due_at error db =
    update_member_deliveries id
      (λ d. record d {
        status = delivery_status status;
        next_retry_at = due_at;
        last_error = error;
        response_summary = if is_succeeded status then some "delivered" else d.response_summary;
        updated_at = now;
      })
      (update_batch id
        (λ b. record b {
          status = status;
          due_at = unwrap_or due_at b.due_at;
          last_error = error;
          updated_at = now;
        })
        db)

unfoldable pub mark_notification_batch_succeeded : ℤ → ℕ → Db → Db
unfolding finish_notification_batch
mark_notification_batch_succeeded now id =
    finish_notification_batch now id BatchStatus.succeeded none none

unfoldable pub mark_notification_batch_retrying : ℤ → ℕ → ℤ → String → Db → Db
unfolding finish_notification_batch
mark_notification_batch_retrying now id retry_at error =
    finish_notification_batch now id BatchStatus.retrying (some retry_at) (some error)

unfoldable pub mark_notification_batch_dead_letter : ℤ → ℕ → String → Db → Db
unfolding finish_notification_batch
mark_notification_batch_dead_letter now id error =
    finish_notification_batch now id BatchStatus.dead_letter none (some error)
