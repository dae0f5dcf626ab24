-- ===== src/Storage/Groups.antt =====
-- storage.rs: alert groups and events, their lifecycle actions, and the audit trail.
pub mod Counts
pub mod Lifecycle
pub mod Escalations
use simple_alert_proxy.Prelude.{
  ◌*◌, ℕ, ◌+◌, String, Bool, true, false, ◌&&◌, Option, none, some, List, [], ◌∷◌, ◌==◌, str_eq,
  or_else, if◌then◌else◌,
}
use simple_alert_proxy.Prelude.Int.{ℤ, pos, i64_add}
use simple_alert_proxy.Prelude.Text.{trim, is_empty, eq_ignore_ascii_case}
use simple_alert_proxy.Table
use simple_alert_proxy.Table.{Table, find, update_where, exists_where, with_rows, at}
use simple_alert_proxy.Json.{Serde}
use simple_alert_proxy.Alert.{AlertEvent, EventSerde}
use simple_alert_proxy.Storage.{
  Db, EventRow, GroupRow, GroupStatus, TaskRow, TaskStatus, TeamRow, AuditActor, Action, Result, ok,
  err, group_not_found,
}

unfoldable pub insert_audit :
    Option ℕ → Option ℕ → AuditActor → String → Option String → ℤ → Db → Db
unfolding Table.insert
insert_audit group delivery actor action detail now db = record db {
  audit =
      Table.insert
        (record {
          alert_group_id = group;
          delivery_record_id = delivery;
          actor_user_id = actor.user_id;
          actor_display_name = actor.display_name;
          actor_team_id = actor.team_id;
          action = action;
          detail = detail;
          created_at = now;
        })
        db.audit;
}

-- WHERE group_namespace = ns AND fingerprint = fp
abbrev pub has_key : String → String → GroupRow → Bool
has_key ns fp g = str_eq g.group_namespace ns && str_eq g.fingerprint fp

unfoldable pub find_group : String → String → List (ℕ × GroupRow) → Option (ℕ × GroupRow)
find_group ns fp [] = none
find_group ns fp ((i, g) ∷ rest) = if has_key ns fp g then some (i, g) else find_group ns fp rest

unfoldable pub group_status : AlertEvent → GroupStatus
group_status event =
    if eq_ignore_ascii_case event.status "resolved"
    then GroupStatus.resolved
    else GroupStatus.active

-- `existing_status == "resolved" && group_status == "active"`
abbrev pub reactivates : GroupStatus → GroupStatus → Bool
reactivates GroupStatus.resolved GroupStatus.active = true
reactivates _ _ = false

-- The two UPDATEs of `upsert_alert_group`.
unfoldable pub touch_group : AlertEvent → Option ℕ → ℤ → GroupRow → GroupRow
unfolding group_status
touch_group event team_id now g =
    let again = reactivates g.status (group_status event) in
    record g {
      status = group_status event;
      severity = event.severity;
      title = event.title;
      event_count = g.event_count + 1;
      acknowledged_at = if again then none else g.acknowledged_at;
      silenced_until = if again then none else g.silenced_until;
      team_id = or_else g.team_id team_id;
      last_event_at = now;
      updated_at = now;
    }

unfoldable pub new_group : AlertEvent → Option ℕ → ℤ → GroupRow
unfolding group_status
new_group event team_id now = record {
  group_namespace = event.group_namespace;
  fingerprint = event.fingerprint;
  team_id = team_id;
  integration = event.integration;
  source = event.source;
  status = group_status event;
  severity = event.severity;
  title = event.title;
  event_count = 1;
  acknowledged_at = none;
  silenced_until = none;
  first_event_at = now;
  last_event_at = now;
  updated_at = now;
}

-- Returns the group's id.
unfoldable pub upsert_alert_group : AlertEvent → Option ℕ → ℤ → Table GroupRow → ℕ × Table GroupRow
unfolding Table.insert
upsert_alert_group event team_id now groups =
    elim (find_group event.group_namespace event.fingerprint groups.rows) [
      | some (id, g) ↦
          (id, with_rows groups (update_where (at id) (touch_group event team_id now) groups.rows))
      | none ↦ (groups.seq + 1, Table.insert (new_group event team_id now) groups)
    ]

unfoldable pub find_team : String → List (ℕ × TeamRow) → Option ℕ
find_team name [] = none
find_team name ((i, t) ∷ rest) = if str_eq t.name name then some i else find_team name rest

unfoldable pub team_id_by_name : Db → String → Option ℕ
team_id_by_name db name = if is_empty (trim name) then none else find_team (trim name) db.teams.rows

-- `owner_team.map(…).transpose()?.flatten()`
abbrev pub owner_team_id : Db → Option String → Option ℕ
owner_team_id db none = none
owner_team_id db (some name) = team_id_by_name db name

abbrev pub event_row : EventSerde → AlertEvent → ℕ → ℤ → EventRow
event_row serde event group now = record {
  alert_group_id = some group;
  event_id = event.event_id;
  integration = event.integration;
  group_namespace = event.group_namespace;
  source = event.source;
  status = event.status;
  severity = event.severity;
  title = event.title;
  fingerprint = event.fingerprint;
  raw_payload = serde.value_to_string event.raw_payload;
  normalized_event = some (serde.event_to_string event);
  created_at = now;
}

-- Returns the id of the event's row.
unfoldable pub store_event_with_team : EventSerde → ℤ → AlertEvent → Option String → Db → ℕ × Db
unfolding Table.insert
store_event_with_team serde now event owner_team db =
    let (group, groups) = upsert_alert_group event (owner_team_id db owner_team) now db.groups in
    (
      db.events.seq + 1,
      record db {
        groups = groups;
        events = Table.insert (event_row serde event group now) db.events;
      },
    )

-- `update_group_exists`
abbrev pub group_exists : Db → ℕ → Bool
group_exists db id = exists_where (at id) db.groups.rows

abbrev pub is_scheduled : TaskStatus → Bool
is_scheduled TaskStatus.scheduled = true
is_scheduled _ = false

abbrev pub cancel_task : ℤ → TaskRow → TaskRow
cancel_task now t = record t { status = TaskStatus.canceled; updated_at = now }

unfoldable pub cancel_escalations_stopped_by_ack : ℕ → ℤ → Db → Db
cancel_escalations_stopped_by_ack group now db = record db {
  tasks = with_rows db.tasks (
      update_where (λ _ t. t.alert_group_id == group && is_scheduled t.status && t.stop_on_ack)
        (cancel_task now) db.tasks.rows);
}

unfoldable pub cancel_escalations_stopped_by_resolve : ℕ → ℤ → Db → Db
cancel_escalations_stopped_by_resolve group now db = record db {
  tasks = with_rows db.tasks (
      update_where (λ _ t. t.alert_group_id == group && is_scheduled t.status && t.stop_on_resolve)
        (cancel_task now) db.tasks.rows);
}

abbrev pub update_group : ℕ → (GroupRow → GroupRow) → Db → Db
update_group id f db = record db {
  groups = with_rows db.groups (update_where (at id) f db.groups.rows);
}

unfoldable pub acknowledge_group_as : ℤ → ℕ → AuditActor → Action (Unit {0})
unfolding cancel_escalations_stopped_by_ack insert_audit
acknowledge_group_as now id actor db =
    if group_exists db id
    then (
      ok tt,
      insert_audit (some id) none actor "acknowledge" none now (
          cancel_escalations_stopped_by_ack id now
            (update_group id (λ g. record g { acknowledged_at = some now; updated_at = now }) db)),
    )
    else (err group_not_found, db)

unfoldable pub resolve_group_as : ℤ → ℕ → AuditActor → Action (Unit {0})
unfolding cancel_escalations_stopped_by_resolve insert_audit
resolve_group_as now id actor db =
    if group_exists db id
    then (
      ok tt,
      insert_audit (some id) none actor "resolve" none now (
          cancel_escalations_stopped_by_resolve id now (
            update_group id (λ g. record g { status = GroupStatus.resolved; updated_at = now })
              db)),
    )
    else (err group_not_found, db)

unfoldable pub silence_group_as : ℤ → ℕ → AuditActor → Action (Unit {0})
unfolding insert_audit
silence_group_as now id actor db =
    let silenced_until = i64_add now (pos (60 * 60 * 1000)) in
    if group_exists db id
    then (
      ok tt,
      insert_audit (some id) none actor "silence" (some "duration_millis=3600000") now (
          update_group id (λ g. record g { silenced_until = some silenced_until; updated_at = now })
            db),
    )
    else (err group_not_found, db)
