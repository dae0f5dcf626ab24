-- ===== src/Config.antt =====
-- config.rs: the settings, as they are after parsing, with their defaults filled in.
pub mod Checks
pub mod Sections
pub mod Outside
pub mod Integrations
pub mod Tls
pub mod Receivers
pub mod Validate
pub mod Parts
pub mod Paths
pub mod Sound
use simple_alert_proxy.Prelude.{
  ℕ, ◌*◌, String, Bool, true, false, Option, none, some, List, [], ◌∷◌,
}
use simple_alert_proxy.Prelude.Maps.{Entries}
use simple_alert_proxy.Routing.{RouteConfig}
use simple_alert_proxy.Worker.{DeliveryConfig}

pub record AuthConfig : Type 0 where
  pub bearer_token : String

pub record ServerLimitsConfig : Type 0 where
  pub webhook_concurrency : ℕ
  pub management_concurrency : ℕ

pub record TlsConfig : Type 0 where
  pub cert_path : Option String
  pub key_path : Option String
  pub cert_env : Option String
  pub key_env : Option String

pub record ServerConfig : Type 0 where
  pub bind : String
  pub webhook_path : String
  pub max_body_bytes : ℕ
  pub limits : ServerLimitsConfig
  pub auth : Option AuthConfig
  pub tls : Option TlsConfig

pub record ManagementConfig : Type 0 where
  pub auth : Option AuthConfig
  pub allow_unauthenticated : Bool
  pub local_users : Bool
  pub bootstrap_admin_password_env : String
  pub session_ttl_secs : ℕ
  pub secure_cookies : Option Bool

-- `type` is a reserved word here.
pub record StorageConfig : Type 0 where
  pub storage_type : String
  pub path : String
  pub retention_days : ℕ

pub record EscalationStepConfig : Type 0 where
  pub receiver : Option String
  pub schedule : Option String
  pub webhook : Option String
  pub user : Option String
  pub team : Option String
  pub delay_millis : ℕ
  pub stop_on_ack : Bool
  pub stop_on_resolve : Bool

pub record EscalationPolicyConfig : Type 0 where
  pub steps : List EscalationStepConfig

pub record EscalationConfig : Type 0 where
  pub policies : Entries EscalationPolicyConfig

pub record OnCallScheduleEntryConfig : Type 0 where
  pub receiver : Option String
  pub user : Option String
  pub team : Option String

pub record OnCallScheduleConfig : Type 0 where
  pub entries : List OnCallScheduleEntryConfig

pub record ScheduleConfig : Type 0 where
  pub on_call : Entries OnCallScheduleConfig

pub record IntelligenceConfig : Type 0 where
  pub enabled : Bool
  pub provider : Option String
  pub allow_lifecycle_mutation : Bool

pub record NotificationBatchingConfig : Type 0 where
  pub enabled : Bool
  pub group_wait_millis : ℕ
  pub max_events : ℕ
  pub max_payload_bytes : ℕ

pub record DebugConfig : Type 0 where
  pub log_alerts : Bool
  pub log_full_payloads : Bool

pub record RoutingConfig : Type 0 where
  pub default_receiver : Option String
  pub routes : List RouteConfig

pub record AlertMappingConfig : Type 0 where
  pub status : String
  pub severity : Option String
  pub title : String
  pub body : Option String
  pub fingerprint : String
  pub notification_group_key : Option String
  pub starts_at : Option String
  pub ends_at : Option String
  pub labels : Entries String
  pub annotations : Entries String
  pub links : Entries String

pub record BuiltinIntegrationConfig : Type 0 where
  pub preset : String
  pub path : String
  pub auth : Option AuthConfig

pub record GenericJsonIntegrationConfig : Type 0 where
  pub preset : Option String
  pub path : String
  pub auth : Option AuthConfig
  pub source : String
  pub mapping : AlertMappingConfig

pub record CloudEventsIntegrationConfig : Type 0 where
  pub path : String
  pub auth : Option AuthConfig
  pub mapping : AlertMappingConfig

pub data IntegrationConfig : Type 0 where
  builtin : BuiltinIntegrationConfig → IntegrationConfig
  generic_json : GenericJsonIntegrationConfig → IntegrationConfig
  cloud_events : CloudEventsIntegrationConfig → IntegrationConfig

-- `IntegrationConfig::path`
abbrev pub path_of : IntegrationConfig → String
path_of (builtin c) = c.path
path_of (generic_json c) = c.path
path_of (cloud_events c) = c.path

pub record NotificationTemplateConfig : Type 0 where
  pub title : Option String
  pub body : Option String
  pub payload : Option String

pub record GoogleChatReceiverConfig : Type 0 where
  pub webhook_url : String
  pub owner_team : Option String
  pub title_template : Option String
  pub template : Option NotificationTemplateConfig
  pub timeout_secs : ℕ

pub record GenericWebhookReceiverConfig : Type 0 where
  pub webhook_url : String
  pub owner_team : Option String
  pub timeout_secs : ℕ
  pub template : Option NotificationTemplateConfig

pub data N8nWebhookAuthConfig : Type 0 where
  header : String → String → N8nWebhookAuthConfig

pub record N8nWebhookReceiverConfig : Type 0 where
  pub webhook_url : String
  pub auth : Option N8nWebhookAuthConfig
  pub owner_team : Option String
  pub timeout_secs : ℕ
  pub template : Option NotificationTemplateConfig

pub data CloudEventsWebhookMode : Type 0 where
  structured binary : CloudEventsWebhookMode

pub record CloudEventsWebhookReceiverConfig : Type 0 where
  pub webhook_url : String
  pub source : String
  pub mode : CloudEventsWebhookMode
  pub event_type : String
  pub batch_type : String
  pub owner_team : Option String
  pub timeout_secs : ℕ
  pub template : Option NotificationTemplateConfig

pub record ChatWebhookReceiverConfig : Type 0 where
  pub webhook_url : String
  pub owner_team : Option String
  pub title_template : Option String
  pub template : Option NotificationTemplateConfig
  pub timeout_secs : ℕ

pub record MatrixReceiverConfig : Type 0 where
  pub homeserver_url : String
  pub room_id : String
  pub access_token : Option String
  pub access_token_env : Option String
  pub owner_team : Option String
  pub title_template : Option String
  pub template : Option NotificationTemplateConfig
  pub timeout_secs : ℕ

pub data ReceiverConfig : Type 0 where
  google_chat : GoogleChatReceiverConfig → ReceiverConfig
  generic_webhook : GenericWebhookReceiverConfig → ReceiverConfig
  n8n_webhook : N8nWebhookReceiverConfig → ReceiverConfig
  cloudevents_webhook : CloudEventsWebhookReceiverConfig → ReceiverConfig
  slack mattermost discord : ChatWebhookReceiverConfig → ReceiverConfig
  matrix : MatrixReceiverConfig → ReceiverConfig

-- `ReceiverConfig::owner_team`
unfoldable pub owner_team : ReceiverConfig → Option String
owner_team (google_chat r) = r.owner_team
owner_team (generic_webhook r) = r.owner_team
owner_team (n8n_webhook r) = r.owner_team
owner_team (cloudevents_webhook r) = r.owner_team
owner_team (slack r) = r.owner_team
owner_team (mattermost r) = r.owner_team
owner_team (discord r) = r.owner_team
owner_team (matrix r) = r.owner_team

pub record AppConfig : Type 0 where
  pub server : ServerConfig
  pub management : ManagementConfig
  pub integrations : Entries IntegrationConfig
  pub storage : StorageConfig
  pub delivery : DeliveryConfig
  pub escalation : EscalationConfig
  pub schedules : ScheduleConfig
  pub intelligence : IntelligenceConfig
  pub notification_batching : NotificationBatchingConfig
  pub debug : DebugConfig
  pub routing : RoutingConfig
  pub receivers : Entries ReceiverConfig
