-- ===== src/Examples.antt =====
-- Test data for the examples: events, settings, and small databases.
pub mod Alerts
pub mod Notifications
pub mod Accounts
pub mod Settings
pub mod Pipeline
pub mod Retention
use simple_alert_proxy.Prelude.{ℕ, String, Bool, true, false, Option, none, some, List, [], ◌∷◌}
use simple_alert_proxy.Prelude.Int.{ℤ, pos}
use simple_alert_proxy.Json.{Value, null}
use simple_alert_proxy.Alert.{AlertEvent, EventSerde}
use simple_alert_proxy.Routing.{Delivery}
use simple_alert_proxy.Storage.{
  Db, empty, GroupRow, GroupStatus, EventRow, DeliveryRow, DeliveryStatus, BatchRow, BatchStatus,
  TaskRow, TaskStatus, UserRow, UserStatus, SessionRow, AuditActor, no_actor,
}

abbrev pub disk_full : AlertEvent
disk_full = record {
  event_id = "grafana:disk";
  integration = "grafana";
  group_namespace = "integration/grafana";
  source = "grafana";
  received_at = none;
  status = "firing";
  severity = "critical";
  title = "Disk full";
  body = none;
  labels = ("host", "db1") ∷ [];
  annotations = [];
  links = [];
  starts_at = none;
  ends_at = none;
  fingerprint = "disk";
  notification_group_key = none;
  instances = [];
  raw_payload = null;
}

-- A serializer of one event and one value.
abbrev pub constant_serde : Value → EventSerde
constant_serde value = record {
  value_to_string = λ v. "value";
  value_from_string = λ text. some value;
  event_to_string = λ e. "event";
  event_from_string = λ text. some disk_full;
  event_len = λ e. 300;
}

abbrev pub null_serde : EventSerde
null_serde = constant_serde null

abbrev pub to_chat : Delivery
to_chat = record {
  route_name = "critical";
  receiver = "chat";
  owner_team = none;
  escalation_policy = none;
  group_by = [];
}

-- A resolved and acknowledged group.
abbrev pub disk_group : GroupRow
disk_group = record {
  group_namespace = "integration/grafana";
  fingerprint = "disk";
  team_id = some 1;
  integration = "grafana";
  source = "grafana";
  status = GroupStatus.resolved;
  severity = "warning";
  title = "Disk";
  event_count = 4;
  acknowledged_at = some (pos 10);
  silenced_until = none;
  first_event_at = pos 1;
  last_event_at = pos 9;
  updated_at = pos 10;
}

abbrev pub disk_event : EventRow
disk_event = record {
  alert_group_id = some 1;
  event_id = "grafana:disk";
  integration = "grafana";
  group_namespace = "integration/grafana";
  source = "grafana";
  status = "firing";
  severity = "critical";
  title = "Disk full";
  fingerprint = "disk";
  raw_payload = "value";
  normalized_event = some "event";
  created_at = pos 9;
}

abbrev pub due_task_row : TaskRow
due_task_row = record {
  alert_group_id = 1;
  policy = "on-call";
  step_index = 2;
  stop_on_ack = false;
  stop_on_resolve = false;
  status = TaskStatus.scheduled;
  due_at = pos 50;
  created_at = pos 9;
  updated_at = pos 9;
}

abbrev pub stopping_task_row : TaskRow
stopping_task_row = record due_task_row {
  stop_on_ack = true;
  stop_on_resolve = true;
  due_at = pos 90;
}

-- One group with two scheduled escalations.
abbrev pub group_db : Db
group_db = record empty {
  groups = record { seq = 1; rows = (1, disk_group) ∷ [] };
  events = record { seq = 1; rows = (1, disk_event) ∷ [] };
  tasks = record { seq = 2; rows = (2, stopping_task_row) ∷ (1, due_task_row) ∷ [] };
}

abbrev pub queued_delivery : DeliveryRow
queued_delivery = record {
  alert_event_id = 1;
  target = "chat";
  status = DeliveryStatus.queued;
  attempt_count = 0;
  next_retry_at = some (pos 5);
  last_error = none;
  request_summary = "value";
  response_summary = none;
  created_at = pos 5;
  updated_at = pos 5;
}

abbrev pub waiting_batch : BatchRow
waiting_batch = record {
  batch_key = "critical/chat";
  receiver = "chat";
  route_name = "critical";
  owner_team = none;
  escalation_policy = none;
  status = BatchStatus.retrying;
  due_at = pos 20;
  attempt_count = 1;
  event_count = 1;
  payload_bytes = 300;
  last_error = some "rejected";
  created_at = pos 5;
  updated_at = pos 6;
}

-- One delivery in one batch.
abbrev pub batch_db : Db
batch_db = record group_db {
  deliveries = record { seq = 1; rows = (1, queued_delivery) ∷ [] };
  batches = record { seq = 1; rows = (1, waiting_batch) ∷ [] };
  members =
      (1, record { batch_id = 1; alert_event_id = 1; event_bytes = 300; created_at = pos 5 }) ∷ [];
}

abbrev pub ada : UserRow
ada = record {
  username = "ada";
  display_name = "Ada";
  password_hash = "hash";
  global_role = "admin";
  status = UserStatus.active;
  created_at = pos 1;
  updated_at = pos 1;
  last_login_at = none;
}

abbrev pub bob : UserRow
bob = record ada { username = "bob"; display_name = "Bob"; global_role = "scoped" }

abbrev pub session_of : ℕ → String → SessionRow
session_of user token = record {
  token_hash = token;
  user_id = user;
  csrf_token = "csrf";
  expires_at = pos 100;
  created_at = pos 1;
  last_seen_at = pos 1;
}

-- An admin and another user, both logged in.
abbrev pub user_db : Db
user_db = record group_db {
  users = record { seq = 2; rows = (2, bob) ∷ (1, ada) ∷ [] };
  sessions = session_of 1 "a" ∷ session_of 2 "b" ∷ [];
}

abbrev pub by_ada : AuditActor
by_ada = record no_actor { user_id = some 1; display_name = some "Ada" }
