-- ===== src/Config/Validate.antt =====
-- config.rs: `AppConfig::validate` in the source's order, and the settings it reads.
use simple_alert_proxy.Prelude.{
  ℕ, String, Bool, true, false, ◌&&◌, ◌||◌, not, Option, none, some, ◌==◌, is_some, if◌then◌else◌,
  unwrap_or, or_else,
}
use simple_alert_proxy.Prelude.Maps.{contains_key}
use simple_alert_proxy.Routing.{RouteConfig}
use simple_alert_proxy.Notification.{validate_group_by_selector}
use simple_alert_proxy.Config.{
  AuthConfig, AppConfig, EscalationPolicyConfig, EscalationStepConfig, OnCallScheduleConfig,
  OnCallScheduleEntryConfig, NotificationBatchingConfig,
}
use simple_alert_proxy.Config.Checks.{
  ConfigError, Check, ok, err, ◌>>◌, bail_if, if_some, each, each_from,
}
use simple_alert_proxy.Config.Outside.{Outside}
use simple_alert_proxy.Config.Sections.{
  validate_limits, validate_storage, validate_delivery, validate_schedules, validate_escalation,
  validate_intelligence, validate_management, receiver_target, bail_if_token_empty, is_nil,
}
use simple_alert_proxy.Config.Integrations.{validate_integration, validate_integration_paths}
use simple_alert_proxy.Config.Tls.{validate_tls}
use simple_alert_proxy.Config.Receivers.{validate_receiver}

unfoldable pub management_auth : AppConfig → Option AuthConfig
management_auth config = or_else config.management.auth config.server.auth

unfoldable pub management_secure_cookies : AppConfig → Bool
management_secure_cookies config =
    unwrap_or config.management.secure_cookies (is_some config.server.tls)

-- `require_receiver`, `require_escalation_policy`, `require_schedule`, with the error that the
-- caller's context makes of theirs.
unfoldable pub require_receiver : AppConfig → String → ConfigError → Check
unfolding contains_key
require_receiver config name e = bail_if (not (contains_key name config.receivers)) e

unfoldable pub require_escalation_policy : AppConfig → String → ConfigError → Check
unfolding contains_key
require_escalation_policy config name e =
    bail_if (not (contains_key name config.escalation.policies)) e

unfoldable pub require_schedule : AppConfig → String → ConfigError → Check
unfolding contains_key
require_schedule config name e = bail_if (not (contains_key name config.schedules.on_call)) e

unfoldable pub validate_management_exposure : Outside → AppConfig → Check
unfolding management_auth
validate_management_exposure outside config =
    if is_some (management_auth config)
      || config.management.allow_unauthenticated
      || config.management.local_users
    then ok
    else elim (outside.loopback config.server.bind) [
      | none ↦ err ConfigError.bind_invalid
      | some true ↦ ok
      | some false ↦ err ConfigError.management_exposed
    ]

-- The bodies of `validate`'s loops over the policies, the routes and the schedules.
unfoldable pub check_step : AppConfig → String → ℕ → EscalationStepConfig → Check
unfolding receiver_target require_receiver require_schedule
check_step config policy_name index step = do
  if_some (receiver_target step) (λ receiver.
      require_receiver config receiver (ConfigError.step_receiver_unknown policy_name index))
  if_some step.schedule (λ schedule.
      require_schedule config schedule (ConfigError.step_schedule_unknown policy_name index))

unfoldable pub check_policy : AppConfig → String × EscalationPolicyConfig → Check
unfolding each_from check_step
check_policy config (policy_name, policy) = each_from 0 (check_step config policy_name) policy.steps

unfoldable pub check_selector : String → String → Check
unfolding validate_group_by_selector
check_selector route_name selector =
    bail_if (not (validate_group_by_selector selector))
      (ConfigError.selector_invalid route_name selector)

unfoldable pub check_route : AppConfig → RouteConfig → Check
unfolding each require_receiver check_selector require_escalation_policy
check_route config route = do
  require_receiver config route.receiver (ConfigError.receiver_unknown route.receiver)
  each (check_selector route.name) route.group_by
  if_some route.escalation_policy
      (λ policy. require_escalation_policy config policy (ConfigError.policy_unknown policy))

unfoldable pub check_entry : AppConfig → String → ℕ → OnCallScheduleEntryConfig → Check
unfolding require_receiver
check_entry config name index entry =
    if_some entry.receiver
      (λ receiver. require_receiver config receiver (ConfigError.entry_receiver_unknown name index))

unfoldable pub check_schedule : AppConfig → String × OnCallScheduleConfig → Check
unfolding each_from check_entry
check_schedule config (name, schedule) = each_from 0 (check_entry config name) schedule.entries

unfoldable pub check_batching : NotificationBatchingConfig → Check
check_batching batching = do
  bail_if (batching.enabled && batching.group_wait_millis == 0) ConfigError.group_wait_zero
  bail_if (batching.enabled && batching.max_events == 0) ConfigError.max_events_zero
  bail_if (batching.enabled && batching.max_payload_bytes == 0) ConfigError.max_payload_zero

-- `AppConfig::validate`
unfoldable pub validate : Outside → AppConfig → Check
unfolding each validate_limits validate_storage validate_delivery validate_schedules
    validate_escalation validate_intelligence validate_management validate_integration
    validate_integration_paths validate_tls validate_receiver require_receiver check_policy
    check_route check_schedule check_batching validate_management_exposure
validate outside config = do
  bail_if (is_nil config.receivers) ConfigError.no_receiver
  bail_if (config.server.max_body_bytes == 0) ConfigError.body_limit_zero
  validate_limits config.server.limits
  validate_storage config.storage
  validate_delivery config.delivery
  validate_schedules config.schedules
  validate_escalation config.escalation
  each (check_policy config) config.escalation.policies
  validate_intelligence config.intelligence
  bail_if_token_empty config.server.auth ConfigError.server_token_empty
  validate_management config.management
  validate_management_exposure outside config
  if_some config.server.tls (λ tls. validate_tls outside tls)
  each validate_integration config.integrations
  validate_integration_paths config.integrations
  check_batching config.notification_batching
  if_some config.routing.default_receiver
      (λ receiver. require_receiver config receiver (ConfigError.receiver_unknown receiver))
  each (check_route config) config.routing.routes
  each (check_schedule config) config.schedules.on_call
  each (validate_receiver outside) config.receivers
