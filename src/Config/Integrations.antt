-- ===== src/Config/Integrations.antt =====
-- config.rs: the checks of the integrations, and that their paths differ.

use simple_alert_proxy.Prelude.{String, ◌||◌, not, Option, none, some, [], ◌∷◌, ◌==◌}
use simple_alert_proxy.Prelude.Maps.{Entries, get}
use simple_alert_proxy.Prelude.Text.{
  is_empty, has_prefix, is_one_of, all_codes, is_ascii_alphanumeric,
}
use simple_alert_proxy.Config.{
  AuthConfig, AlertMappingConfig, BuiltinIntegrationConfig, GenericJsonIntegrationConfig,
  CloudEventsIntegrationConfig, IntegrationConfig, builtin, generic_json, cloud_events, path_of,
}
use simple_alert_proxy.Config.Checks.{ConfigError, Check, ok, err, ◌>>◌, bail_if, if_some}
use simple_alert_proxy.Config.Sections.{bail_if_token_empty}

unfoldable pub validate_integration_name : String → Check
validate_integration_name name = do
  bail_if (is_empty name) ConfigError.integration_name_empty
  bail_if (not (all_codes (λ ch. ch == b'-' || ch == b'_' || is_ascii_alphanumeric ch) name))
      (ConfigError.integration_name_invalid name)

unfoldable pub validate_source_preset : String → String → Check
validate_source_preset name preset =
    bail_if
      (not (is_one_of ("alertmanager" ∷ "grafana" ∷ "openobserve" ∷ "openvas_scan" ∷ []) preset))
      (ConfigError.preset_unsupported name preset)

unfoldable pub validate_builtin_preset : String → String → Check
validate_builtin_preset name preset =
    bail_if (not (is_one_of ("signoz" ∷ "alertmanager" ∷ "grafana" ∷ "gvmd" ∷ "n8n" ∷ []) preset))
      (ConfigError.preset_unsupported name preset)

-- `BuiltinIntegrationConfig::validate`
unfoldable pub validate_builtin : String → BuiltinIntegrationConfig → Check
unfolding validate_builtin_preset
validate_builtin name config = do
  bail_if (is_empty config.path) (ConfigError.integration_path_empty name)
  validate_builtin_preset name config.preset
  bail_if (not (has_prefix "/webhooks/" config.path)) (ConfigError.integration_path_prefix name)
  bail_if_token_empty config.auth (ConfigError.integration_token_empty name)

unfoldable pub validate_integration_path_and_auth : String → String → Option AuthConfig → Check
validate_integration_path_and_auth name path auth = do
  bail_if (is_empty path) (ConfigError.integration_path_empty name)
  bail_if (not (has_prefix "/webhooks/" path)) (ConfigError.integration_path_prefix name)
  bail_if_token_empty auth (ConfigError.integration_token_empty name)

-- `AlertMappingConfig::validate`
unfoldable pub validate_mapping : String → AlertMappingConfig → Check
validate_mapping name mapping = do
  bail_if (is_empty mapping.status) (ConfigError.mapping_field_empty name)
  bail_if (is_empty mapping.title) (ConfigError.mapping_field_empty name)
  bail_if (is_empty mapping.fingerprint) (ConfigError.mapping_field_empty name)

-- `GenericJsonIntegrationConfig::validate`
unfoldable pub validate_generic_json : String → GenericJsonIntegrationConfig → Check
unfolding validate_integration_path_and_auth validate_source_preset validate_mapping
validate_generic_json name config = do
  validate_integration_path_and_auth name config.path config.auth
  if_some config.preset (λ preset. validate_source_preset name preset)
  bail_if (is_empty config.source) (ConfigError.integration_source_empty name)
  validate_mapping name config.mapping

-- `CloudEventsIntegrationConfig::validate`
unfoldable pub validate_cloud_events : String → CloudEventsIntegrationConfig → Check
unfolding validate_integration_path_and_auth validate_mapping
validate_cloud_events name config = do
  validate_integration_path_and_auth name config.path config.auth
  validate_mapping name config.mapping

-- The body of `validate`'s loop over the integrations.
unfoldable pub validate_integration : String × IntegrationConfig → Check
unfolding validate_integration_name validate_builtin validate_generic_json validate_cloud_events
validate_integration (name, integration) = do
  validate_integration_name name
  elim integration [
    | builtin config ↦ validate_builtin name config
    | generic_json config ↦ validate_generic_json name config
    | cloud_events config ↦ validate_cloud_events name config
  ]

-- `validate_integration_paths`: `paths` holds the name of the integration at each path so far.
unfoldable pub check_paths : Entries String → Entries IntegrationConfig → Check
unfolding get
check_paths paths [] = ok
check_paths paths ((name, integration) ∷ rest) = elim (get (path_of integration) paths) [
  | some previous ↦ err (ConfigError.path_duplicated name previous)
  | none ↦ check_paths ((path_of integration, name) ∷ paths) rest
]

unfoldable pub validate_integration_paths : Entries IntegrationConfig → Check
unfolding check_paths
validate_integration_paths integrations = check_paths [] integrations
