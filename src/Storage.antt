-- ===== src/Storage.antt =====
-- storage.rs: the database. A table is a `Table` of rows with all their columns; TEXT columns that
-- hold one of a few words are data types. An operation takes the time of its `now_epoch_millis()`.
pub mod Groups
pub mod Deliveries
pub mod Batches
pub mod Sending
pub mod Escalation
pub mod Retention
pub mod Users
pub mod Sessions
pub mod Teams
use simple_alert_proxy.Prelude.{◌≡◌, ◌⊎◌, inl, inr, refl, ℕ, String, Bool, Option, none, List, []}
use simple_alert_proxy.Prelude.Int.{ℤ}
use simple_alert_proxy.Table
use simple_alert_proxy.Table.{Table}

-- The words of the `status` columns.
pub data GroupStatus : Type 0 where
  active resolved : GroupStatus

pub data DeliveryStatus : Type 0 where
  queued delivering retrying succeeded dead_letter : DeliveryStatus

pub data BatchStatus : Type 0 where
  pending delivering retrying succeeded dead_letter : BatchStatus

pub data TaskStatus : Type 0 where
  scheduled processing completed failed canceled : TaskStatus

pub data UserStatus : Type 0 where
  active disabled : UserStatus

pub record EventRow : Type 0 where
  pub alert_group_id : Option ℕ
  pub event_id : String
  pub integration : String
  pub group_namespace : String
  pub source : String
  pub status : String
  pub severity : String
  pub title : String
  pub fingerprint : String
  pub raw_payload : String
  pub normalized_event : Option String
  pub created_at : ℤ

pub record GroupRow : Type 0 where
  pub group_namespace : String
  pub fingerprint : String
  pub team_id : Option ℕ
  pub integration : String
  pub source : String
  pub status : GroupStatus
  pub severity : String
  pub title : String
  pub event_count : ℕ
  pub acknowledged_at : Option ℤ
  pub silenced_until : Option ℤ
  pub first_event_at : ℤ
  pub last_event_at : ℤ
  pub updated_at : ℤ

pub record DeliveryRow : Type 0 where
  pub alert_event_id : ℕ
  pub target : String
  pub status : DeliveryStatus
  pub attempt_count : ℕ
  pub next_retry_at : Option ℤ
  pub last_error : Option String
  pub request_summary : String
  pub response_summary : Option String
  pub created_at : ℤ
  pub updated_at : ℤ

pub record BatchRow : Type 0 where
  pub batch_key : String
  pub receiver : String
  pub route_name : String
  pub owner_team : Option String
  pub escalation_policy : Option String
  pub status : BatchStatus
  pub due_at : ℤ
  pub attempt_count : ℕ
  pub event_count : ℕ
  pub payload_bytes : ℕ
  pub last_error : Option String
  pub created_at : ℤ
  pub updated_at : ℤ

-- Keyed by `delivery_record_id`, which is UNIQUE.
pub record MemberRow : Type 0 where
  pub batch_id : ℕ
  pub alert_event_id : ℕ
  pub event_bytes : ℕ
  pub created_at : ℤ

pub record AuditRow : Type 0 where
  pub alert_group_id : Option ℕ
  pub delivery_record_id : Option ℕ
  pub actor_user_id : Option ℕ
  pub actor_display_name : Option String
  pub actor_team_id : Option ℕ
  pub action : String
  pub detail : Option String
  pub created_at : ℤ

pub record TaskRow : Type 0 where
  pub alert_group_id : ℕ
  pub policy : String
  pub step_index : ℕ
  pub stop_on_ack : Bool
  pub stop_on_resolve : Bool
  pub status : TaskStatus
  pub due_at : ℤ
  pub created_at : ℤ
  pub updated_at : ℤ

pub record AdvisoryRow : Type 0 where
  pub alert_group_id : Option ℕ
  pub provider : String
  pub kind : String
  pub value : String
  pub created_at : ℤ

pub record UserRow : Type 0 where
  pub username : String
  pub display_name : String
  pub password_hash : String
  pub global_role : String
  pub status : UserStatus
  pub created_at : ℤ
  pub updated_at : ℤ
  pub last_login_at : Option ℤ

pub record TeamRow : Type 0 where
  pub name : String
  pub description : String
  pub created_at : ℤ
  pub updated_at : ℤ

pub record MembershipRow : Type 0 where
  pub user_id : ℕ
  pub team_id : ℕ
  pub team_role : String
  pub created_at : ℤ

pub record SessionRow : Type 0 where
  pub token_hash : String
  pub user_id : ℕ
  pub csrf_token : String
  pub expires_at : ℤ
  pub created_at : ℤ
  pub last_seen_at : ℤ

pub record Db : Type 0 where
  pub events : Table EventRow
  pub groups : Table GroupRow
  pub deliveries : Table DeliveryRow
  pub batches : Table BatchRow
  pub members : List (ℕ × MemberRow)
  pub audit : Table AuditRow
  pub tasks : Table TaskRow
  pub advisories : Table AdvisoryRow
  pub users : Table UserRow
  pub teams : Table TeamRow
  pub memberships : List MembershipRow
  pub sessions : List SessionRow

abbrev pub empty : Db
empty = record {
  events = Table.empty;
  groups = Table.empty;
  deliveries = Table.empty;
  batches = Table.empty;
  members = [];
  audit = Table.empty;
  tasks = Table.empty;
  advisories = Table.empty;
  users = Table.empty;
  teams = Table.empty;
  memberships = [];
  sessions = [];
}

pub data Error : Type 0 where
  group_not_found delivery_not_found user_not_found team_not_found : Error
  no_rows constraint_failed overflow missing_event_data invalid_event_data : Error
  empty_username empty_display_name empty_team_name invalid_global_role invalid_team_role : Error
  -- of the escalation steps in main.rs
  receiver_not_configured schedule_not_configured step_without_target : Error

pub data Result {ℓ} (A : Type ℓ) : Type ℓ where
  ok : A → Result A
  err : Error → Result A

-- An operation of `Storage`. What was written before an error stays written, except inside a
-- transaction, which is dropped whole.
abbrev pub Action : Type 0 → Type 0
Action A = Db → Result A × Db

pub record AuditActor : Type 0 where
  pub user_id : Option ℕ
  pub display_name : Option String
  pub team_id : Option ℕ

-- `AuditActor::default()`
abbrev pub no_actor : AuditActor
no_actor = record { user_id = none; display_name = none; team_id = none }

pub Result-cases {ℓ} :
    {A : Type ℓ} (r : Result A) → ((a : A) × (r ≡ ok a)) ⊎ ((e : Error) × (r ≡ err e))
Result-cases (ok a) = inl (a, refl)
Result-cases (err e) = inr (e, refl)
