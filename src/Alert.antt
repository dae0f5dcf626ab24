-- ===== src/Alert.antt =====
-- alert.rs: the canonical alert event. A `BTreeMap` is a list of its entries in key order.
use simple_alert_proxy.Prelude.{String, Option, none, some, List, [], ◌∷◌, str_eq, if◌then◌else◌}
use simple_alert_proxy.Prelude.Text.{append}
use simple_alert_proxy.Json.{Value, Serde}

abbrev pub StringMap : Type 0
StringMap = List (String × String)

-- `BTreeMap::get`
unfoldable pub map_get : StringMap → String → Option String
map_get [] k = none
map_get ((j, v) ∷ rest) k = if str_eq j k then some v else map_get rest k

pub record AlertLink : Type 0 where
  pub label : String
  pub url : String

pub record AlertInstance : Type 0 where
  pub status : String
  pub severity : String
  pub title : String
  pub body : Option String
  pub labels : StringMap
  pub annotations : StringMap
  pub links : List AlertLink
  pub starts_at : Option String
  pub ends_at : Option String
  pub fingerprint : Option String

pub record AlertEvent : Type 0 where
  pub event_id : String
  pub integration : String
  pub group_namespace : String
  pub source : String
  pub received_at : Option String
  pub status : String
  pub severity : String
  pub title : String
  pub body : Option String
  pub labels : StringMap
  pub annotations : StringMap
  pub links : List AlertLink
  pub starts_at : Option String
  pub ends_at : Option String
  pub fingerprint : String
  pub notification_group_key : Option String
  pub instances : List AlertInstance
  pub raw_payload : Value

abbrev pub EventSerde : Type 0
EventSerde = Serde AlertEvent

unfoldable pub integration_group_namespace : String → String
integration_group_namespace integration = append "integration/" integration

-- `AlertEvent::new`
unfoldable pub new : String → String → String → String → String → String → Value → AlertEvent
unfolding integration_group_namespace
new integration source status severity title fingerprint raw_payload = record {
  event_id = append integration (append ":" fingerprint);
  integration = integration;
  group_namespace = integration_group_namespace integration;
  source = source;
  received_at = none;
  status = status;
  severity = severity;
  title = title;
  body = none;
  labels = [];
  annotations = [];
  links = [];
  starts_at = none;
  ends_at = none;
  fingerprint = fingerprint;
  notification_group_key = none;
  instances = [];
  raw_payload = raw_payload;
}
