-- ===== src/Config/Receivers.antt =====
-- config.rs: the checks of the receivers.

use simple_alert_proxy.Prelude.{
  ℕ, ◌*◌, String, Bool, true, false, ◌&&◌, ◌||◌, not, Option, none, some, List, [], ◌∷◌, ◌==◌, ltb,
  leb, any, is_some, str_eq,
}
use simple_alert_proxy.Prelude.Text.{
  is_empty, trim, strip_prefix, split_once, is_one_of, all_codes, is_ascii_alphanumeric,
  is_ascii_hexdigit, byte_len, codes,
}
use simple_alert_proxy.Config.{
  NotificationTemplateConfig, N8nWebhookAuthConfig, header, N8nWebhookReceiverConfig,
  CloudEventsWebhookReceiverConfig, MatrixReceiverConfig, ReceiverConfig, google_chat,
  generic_webhook, n8n_webhook, cloudevents_webhook, slack, mattermost, discord, matrix,
}
use simple_alert_proxy.Config.Checks.{ConfigError, Check, err, ◌>>◌, bail_if, if_some}
use simple_alert_proxy.Config.Outside.{Outside, Url}

-- `ReceiverConfig::notification_template`
unfoldable pub notification_template : ReceiverConfig → Option NotificationTemplateConfig
notification_template (google_chat r) = r.template
notification_template (generic_webhook r) = r.template
notification_template (n8n_webhook r) = r.template
notification_template (cloudevents_webhook r) = r.template
notification_template (slack r) = r.template
notification_template (mattermost r) = r.template
notification_template (discord r) = r.template
notification_template (matrix r) = r.template

-- `ReceiverConfig::legacy_title_template`
unfoldable pub legacy_title_template : ReceiverConfig → Option String
legacy_title_template (google_chat r) = r.title_template
legacy_title_template (slack r) = r.title_template
legacy_title_template (mattermost r) = r.title_template
legacy_title_template (discord r) = r.title_template
legacy_title_template (matrix r) = r.title_template
legacy_title_template (generic_webhook r) = none
legacy_title_template (n8n_webhook r) = none
legacy_title_template (cloudevents_webhook r) = none

-- `MAX_TEMPLATE_SOURCE_BYTES` of template.rs
abbrev pub max_template_source_bytes : ℕ
max_template_source_bytes = 64 * 1024

abbrev pub source_limit : String → String → Option String → Check
source_limit name field source = if_some source (λ s.
    bail_if (ltb max_template_source_bytes (byte_len s))
      (ConfigError.template_source_long name field))

-- `NotificationTemplateConfig::validate`
unfoldable pub validate_template_block : String → Option String → NotificationTemplateConfig → Check
validate_template_block name payload_only template = do
  bail_if
      (not (is_some template.title)
        && not (is_some template.body)
        && not (is_some template.payload))
      (ConfigError.template_nothing name)
  bail_if (is_some template.payload && (is_some template.title || is_some template.body))
      (ConfigError.template_exclusive name)
  bail_if (is_some payload_only && (is_some template.title || is_some template.body))
      (ConfigError.template_payload_only name)
  source_limit name "title" template.title
  source_limit name "body" template.body
  source_limit name "payload" template.payload

abbrev pub payload_only : ReceiverConfig → Option String
payload_only (generic_webhook r) = some "generic_webhook"
payload_only (n8n_webhook r) = some "n8n_webhook"
payload_only (cloudevents_webhook r) = some "cloudevents_webhook"
payload_only _ = none

-- `ReceiverConfig::validate_template`
unfoldable pub validate_template : String → ReceiverConfig → Check
unfolding notification_template legacy_title_template validate_template_block
validate_template name receiver = do
  bail_if (is_some (notification_template receiver) && is_some (legacy_title_template receiver))
      (ConfigError.template_combined name)
  if_some (notification_template receiver)
      (λ template. validate_template_block name (payload_only receiver) template)

-- `Url::parse(…)?`
abbrev pub with_url : Outside → String → String → (Url → Check) → Check
with_url outside name text check = elim (outside.url_parse text) [
  | none ↦ err (ConfigError.url_invalid name)
  | some url ↦ check url
]

abbrev pub bail_unless_http : String → Url → Check
bail_unless_http name url =
    bail_if (not (is_one_of ("http" ∷ "https" ∷ []) url.scheme) || not (is_some url.host_str))
      (ConfigError.url_not_http name)

abbrev pub bail_if_credentials_or_query : String → Url → Check
bail_if_credentials_or_query name url = do
  bail_if (not (is_empty url.username) || is_some url.password) (ConfigError.url_credentials name)
  bail_if (is_some url.query || is_some url.fragment) (ConfigError.url_query name)

abbrev pub reserved_headers : List String
reserved_headers = "host" ∷ "content-length" ∷ "content-type" ∷ "idempotency-key" ∷ []

-- `N8nWebhookAuthConfig::validate`
unfoldable pub validate_n8n_auth : Outside → String → N8nWebhookAuthConfig → Check
validate_n8n_auth outside name (header header_name value_env) =
    elim (outside.header_name header_name) [
      | none ↦ err (ConfigError.header_name_invalid name)
      | some h ↦ do
        bail_if (is_one_of reserved_headers h) (ConfigError.header_name_reserved name)
        bail_if (is_empty (trim value_env)) (ConfigError.value_env_empty name)
    ]

-- `N8nWebhookReceiverConfig::validate`
unfoldable pub validate_n8n : Outside → String → N8nWebhookReceiverConfig → Check
unfolding validate_n8n_auth
validate_n8n outside name receiver = with_url outside name (trim receiver.webhook_url) (λ url. do
  bail_unless_http name url
  bail_if_credentials_or_query name url
  bail_if (receiver.timeout_secs == 0) (ConfigError.timeout_zero name)
  if_some receiver.auth (λ auth. validate_n8n_auth outside name auth))

abbrev pub is_uri_byte : ℕ → Bool
is_uri_byte byte =
    is_ascii_alphanumeric byte || any (λ c. c == byte) (codes "-._~:/?#[]@!$&'()*+,;=%")

-- The loop over the bytes: after each percent sign stand two hexadecimal digits.
abbrev pub two_hex : List ℕ → Bool
two_hex (a ∷ b ∷ rest) = is_ascii_hexdigit a && is_ascii_hexdigit b
two_hex _ = false

unfoldable pub escapes_valid : List ℕ → Bool
escapes_valid [] = true
escapes_valid (byte ∷ rest) = not (byte == b'%' && not (two_hex rest)) && escapes_valid rest

unfoldable pub validate_uri_reference : Outside → String → String → Check
unfolding escapes_valid
validate_uri_reference outside name text = do
  bail_if (is_empty text || not (str_eq (trim text) text) || not (all_codes (λ c. leb c 127) text))
      (ConfigError.reference_invalid name "surroundings")
  bail_if (not (all_codes is_uri_byte text)) (ConfigError.reference_invalid name "character")
  bail_if (not (escapes_valid (codes text))) (ConfigError.reference_invalid name "percent escape")
  bail_if (not (outside.parses_on_base text)) (ConfigError.reference_invalid name "parse")

unfoldable pub validate_cloudevents_type : Outside → String → String → String → Check
validate_cloudevents_type outside name text field = do
  bail_if (is_empty (trim text)) (ConfigError.type_invalid name field)
  bail_if (not (outside.is_header_value text)) (ConfigError.type_invalid name field)

-- `CloudEventsWebhookReceiverConfig::validate`
unfoldable pub validate_cloudevents : Outside → String → CloudEventsWebhookReceiverConfig → Check
unfolding validate_uri_reference validate_cloudevents_type
validate_cloudevents outside name receiver =
    with_url outside name (trim receiver.webhook_url) (λ url. do
      bail_unless_http name url
      bail_if (receiver.timeout_secs == 0) (ConfigError.timeout_zero name)
      validate_uri_reference outside name receiver.source
      validate_cloudevents_type outside name receiver.event_type "event_type"
      validate_cloudevents_type outside name receiver.batch_type "batch_type")

-- `room_id.strip_prefix('!').and_then(|room_id| room_id.split_once(':'))`
abbrev pub room_parts : String → Option (String × String)
room_parts room_id = elim (strip_prefix "!" room_id) [
  | none ↦ none
  | some rest ↦ split_once b':' rest
]

abbrev pub check_room_id : String → String → Check
check_room_id name room_id = elim (room_parts room_id) [
  | none ↦ err (ConfigError.room_id_form name)
  | some (localpart, server_name) ↦
      bail_if (is_empty localpart || is_empty server_name) (ConfigError.room_id_form name)
]

abbrev pub check_tokens : String → Option String → Option String → Check
check_tokens name (some token) (some env_name) = err (ConfigError.tokens_exclusive name)
check_tokens name (some token) none = bail_if (is_empty (trim token)) (ConfigError.token_empty name)
check_tokens name none (some env_name) =
    bail_if (is_empty (trim env_name)) (ConfigError.token_env_empty name)
check_tokens name none none = err (ConfigError.token_missing name)

-- `MatrixReceiverConfig::validate`
unfoldable pub validate_matrix : Outside → String → MatrixReceiverConfig → Check
validate_matrix outside name receiver = do
  bail_if (is_empty (trim receiver.homeserver_url)) (ConfigError.url_invalid name)
  with_url outside name (trim receiver.homeserver_url) (λ homeserver. do
    bail_unless_http name homeserver
    bail_if_credentials_or_query name homeserver
    bail_if (is_empty (trim receiver.room_id)) (ConfigError.room_id_empty name)
    check_room_id name (trim receiver.room_id)
    bail_if (receiver.timeout_secs == 0) (ConfigError.timeout_zero name)
    check_tokens name receiver.access_token receiver.access_token_env)

-- The body of `validate`'s loop over the receivers.
unfoldable pub validate_receiver : Outside → String × ReceiverConfig → Check
unfolding validate_template validate_n8n validate_cloudevents validate_matrix
validate_receiver outside (name, receiver) = do
  validate_template name receiver
  elim receiver [
    | google_chat r ↦ bail_if (r.timeout_secs == 0) (ConfigError.timeout_zero name)
    | generic_webhook r ↦ bail_if (r.timeout_secs == 0) (ConfigError.timeout_zero name)
    | n8n_webhook r ↦ validate_n8n outside name r
    | cloudevents_webhook r ↦ validate_cloudevents outside name r
    | slack r ↦ bail_if (r.timeout_secs == 0) (ConfigError.timeout_zero name)
    | mattermost r ↦ bail_if (r.timeout_secs == 0) (ConfigError.timeout_zero name)
    | discord r ↦ bail_if (r.timeout_secs == 0) (ConfigError.timeout_zero name)
    | matrix r ↦ validate_matrix outside name r
  ]
