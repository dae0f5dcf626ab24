-- ===== src/Storage/Escalation.antt =====
-- storage.rs: escalation tasks.
pub mod Stops
pub mod Tasks
pub mod Actions
pub mod Runs
use simple_alert_proxy.Prelude.{
  ℕ, ◌+◌, String, Bool, true, false, ◌&&◌, ◌||◌, Option, none, some, List, [], ◌∷◌, ◌==◌, ltb, not,
  is_some, if◌then◌else◌,
}
use simple_alert_proxy.Prelude.Int.{ℤ, as_i64, i64_add, leb_ℤ, ltb_ℤ}
use simple_alert_proxy.Table
use simple_alert_proxy.Table.{Table, find, update_where, select_first, with_rows, at}
use simple_alert_proxy.Alert.{AlertEvent, EventSerde}
use simple_alert_proxy.Storage.{
  Db, EventRow, GroupRow, GroupStatus, TaskRow, TaskStatus, Action, Result, ok, err, no_rows,
  no_actor,
}
use simple_alert_proxy.Storage.Groups.{insert_audit, is_scheduled}
use simple_alert_proxy.Storage.Deliveries.{stored_event}

abbrev pub is_resolved : GroupStatus → Bool
is_resolved GroupStatus.resolved = true
is_resolved GroupStatus.active = false

-- `(!stop_on_resolve || status != "resolved") && (!stop_on_ack || acknowledged_at.is_none())`
abbrev pub allows : Bool → Bool → GroupRow → Bool
allows stop_on_ack stop_on_resolve g =
    (not stop_on_resolve || not (is_resolved g.status))
    && (not stop_on_ack || not (is_some g.acknowledged_at))

unfoldable pub group_allows_escalation : Db → ℕ → Bool → Bool → Result Bool
group_allows_escalation db group stop_on_ack stop_on_resolve = elim (find group db.groups.rows) [
  | none ↦ err no_rows
  | some g ↦ ok (allows stop_on_ack stop_on_resolve g)
]

unfoldable pub new_task : ℕ → String → ℕ → Bool → Bool → ℤ → ℤ → TaskRow
new_task group policy step stop_on_ack stop_on_resolve due_at now = record {
  alert_group_id = group;
  policy = policy;
  step_index = step;
  stop_on_ack = stop_on_ack;
  stop_on_resolve = stop_on_resolve;
  status = TaskStatus.scheduled;
  due_at = due_at;
  created_at = now;
  updated_at = now;
}

abbrev pub insert_task : TaskRow → Db → Db
insert_task t db = record db { tasks = Table.insert t db.tasks }

-- A task for the group, if its state allows one.
unfoldable pub schedule : ℤ → ℕ → String → ℕ → ℕ → Bool → Bool → Action (Unit {0})
unfolding group_allows_escalation new_task Table.insert
schedule now group policy step delay_millis stop_on_ack stop_on_resolve db =
    elim (group_allows_escalation db group stop_on_ack stop_on_resolve) [
      | err e ↦ (err e, db)
      | ok false ↦ (ok tt, db)
      | ok true ↦ (
        ok tt,
        insert_task
            (new_task group policy step stop_on_ack stop_on_resolve
              (i64_add now (as_i64 delay_millis)) now)
            db,
      )
    ]

-- An event row with no group makes the conversion of NULL to an id fail.
unfoldable pub queue_escalation : ℤ → ℕ → String → ℕ → Bool → Bool → Action (Unit {0})
unfolding schedule
queue_escalation now event policy delay_millis stop_on_ack stop_on_resolve db =
    elim (find event db.events.rows) [
      | none ↦ (err no_rows, db)
      | some e ↦ elim e.alert_group_id [
        | none ↦ (err no_rows, db)
        | some group ↦ schedule now group policy 0 delay_millis stop_on_ack stop_on_resolve db
      ]
    ]

pub record EscalationTaskRecord : Type 0 where
  pub id : ℕ
  pub alert_group_id : ℕ
  pub policy : String
  pub step_index : ℕ
  pub alert_event_id : ℕ
  pub event : AlertEvent

-- The WHERE clause of `claim_due_escalation`; the join drops a task whose group is gone.
unfoldable pub claimable_task : ℤ → Db → ℕ → TaskRow → Bool
claimable_task now db _ t = elim (find t.alert_group_id db.groups.rows) [
  | none ↦ false
  | some g ↦
      is_scheduled t.status
      && leb_ℤ t.due_at now
      && (not t.stop_on_resolve || not (is_resolved g.status))
      && (not t.stop_on_ack || not (is_some g.acknowledged_at))
]

-- ORDER BY due_at ASC, id ASC
abbrev pub sooner : ℕ × TaskRow → ℕ × TaskRow → Bool
sooner x y =
    if ltb_ℤ x.1.due_at y.1.due_at then true else leb_ℤ x.1.due_at y.1.due_at && ltb x.0 y.0

unfoldable pub due_task : ℤ → Db → Option (ℕ × TaskRow)
unfolding claimable_task
due_task now db = select_first (claimable_task now db) sooner db.tasks.rows

-- ORDER BY created_at DESC, id DESC
abbrev pub later : ℕ × EventRow → ℕ × EventRow → Bool
later x y =
    if ltb_ℤ y.1.created_at x.1.created_at
    then true
    else leb_ℤ y.1.created_at x.1.created_at && ltb y.0 x.0

abbrev pub of_group : ℕ → ℕ → EventRow → Bool
of_group group _ e = elim e.alert_group_id [ none ↦ false | some g ↦ g == group ]

unfoldable pub latest_alert_event_for_group : EventSerde → Db → ℕ → Result (ℕ × AlertEvent)
unfolding stored_event
latest_alert_event_for_group serde db group =
    elim (select_first (of_group group) later db.events.rows) [
      | none ↦ err no_rows
      | some (id, e) ↦ ok (id, stored_event serde e)
    ]

-- UPDATE … WHERE id = … AND status = 'scheduled'
abbrev pub start_task : ℕ → ℤ → Db → Db
start_task id now db = record db {
  tasks = with_rows db.tasks (
      update_where (λ i t. i == id && is_scheduled t.status)
        (λ t. record t { status = TaskStatus.processing; updated_at = now }) db.tasks.rows);
}

-- The task stays in process when its group has no event, which is then an error.
unfoldable pub claim_due_escalation : EventSerde → ℤ → Action (Option EscalationTaskRecord)
unfolding due_task latest_alert_event_for_group
claim_due_escalation serde now db = elim (due_task now db) [
  | none ↦ (ok none, db)
  | some (id, t) ↦
      elim (latest_alert_event_for_group serde (start_task id now db) t.alert_group_id) [
        | err e ↦ (err e, start_task id now db)
        | ok (event_id, event) ↦ (
          ok (
              some (record {
                id = id;
                alert_group_id = t.alert_group_id;
                policy = t.policy;
                step_index = t.step_index;
                alert_event_id = event_id;
                event = event;
              })),
          start_task id now db,
        )
      ]
]

abbrev pub end_task : ℕ → TaskStatus → ℤ → Db → Db
end_task id status now db = record db {
  tasks =
      with_rows db.tasks
        (update_where (at id) (λ t. record t { status = status; updated_at = now }) db.tasks.rows);
}

pub record NextStep : Type 0 where
  pub delay_millis : ℕ
  pub stop_on_ack : Bool
  pub stop_on_resolve : Bool

unfoldable pub complete_escalation_task :
    ℤ → ℕ → ℕ → String → ℕ → Option NextStep → String → Action (Unit {0})
unfolding schedule insert_audit
complete_escalation_task now id group policy step next_step detail db =
    let done =
      insert_audit (some group) none no_actor "escalation_step" (some detail) now
        (end_task id TaskStatus.completed now db) in
    elim next_step [
      | none ↦ (ok tt, done)
      | some next ↦
          schedule now group policy (step + 1) next.delay_millis next.stop_on_ack
            next.stop_on_resolve done
    ]

unfoldable pub fail_escalation_task : ℤ → ℕ → String → Action (Unit {0})
unfolding insert_audit
fail_escalation_task now id detail db = elim (find id db.tasks.rows) [
  | none ↦ (err no_rows, db)
  | some t ↦ (
    ok tt,
    insert_audit (some t.alert_group_id) none no_actor "escalation_step_failed" (some detail) now
        (end_task id TaskStatus.failed now db),
  )
]
