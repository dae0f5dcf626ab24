-- ===== src/Config/Sections.antt =====
-- config.rs: the checks of the sections that refer to no other section.

use simple_alert_proxy.Prelude.{
  ℕ, ◌+◌, String, Bool, true, false, ◌&&◌, not, Option, none, some, List, [], ◌∷◌, ◌==◌, ltb,
  is_some, if◌then◌else◌, or_else, str_eq,
}
use simple_alert_proxy.Prelude.Text.{is_empty, trim}
use simple_alert_proxy.Worker.{DeliveryConfig}
use simple_alert_proxy.Config.{
  AuthConfig, ServerLimitsConfig, ManagementConfig, StorageConfig, EscalationStepConfig,
  EscalationPolicyConfig, EscalationConfig, OnCallScheduleEntryConfig, OnCallScheduleConfig,
  ScheduleConfig, IntelligenceConfig,
}
use simple_alert_proxy.Config.Checks.{
  ConfigError, Check, err, ◌>>◌, bail_if, if_some, each, each_from,
}

-- `ServerLimitsConfig::validate`
unfoldable pub validate_limits : ServerLimitsConfig → Check
validate_limits limits = do
  bail_if (limits.webhook_concurrency == 0) ConfigError.webhook_concurrency_zero
  bail_if (limits.management_concurrency == 0) ConfigError.management_concurrency_zero

-- `StorageConfig::validate`
unfoldable pub validate_storage : StorageConfig → Check
validate_storage storage = do
  bail_if (not (str_eq storage.storage_type "sqlite")) ConfigError.storage_type_unknown
  bail_if (is_empty storage.path) ConfigError.storage_path_empty
  bail_if (storage.retention_days == 0) ConfigError.retention_zero

-- `DeliveryConfig::validate`
unfoldable pub validate_delivery : DeliveryConfig → Check
validate_delivery delivery = do
  bail_if (delivery.max_attempts == 0) ConfigError.attempts_zero
  bail_if (delivery.initial_backoff_millis == 0) ConfigError.initial_backoff_zero
  bail_if (ltb delivery.max_backoff_millis delivery.initial_backoff_millis)
      ConfigError.max_backoff_small

-- `EscalationStepConfig::target_count`
abbrev pub one_if : Bool → ℕ
one_if b = if b then 1 else 0

unfoldable pub target_count : EscalationStepConfig → ℕ
target_count step =
    one_if (is_some step.receiver)
    + one_if (is_some step.schedule)
    + one_if (is_some step.webhook)
    + one_if (is_some step.user)
    + one_if (is_some step.team)

-- `EscalationStepConfig::receiver_target`
unfoldable pub receiver_target : EscalationStepConfig → Option String
receiver_target step = or_else step.receiver step.webhook

abbrev pub bail_if_empty : Option String → ConfigError → Check
bail_if_empty o e = if_some o (λ s. bail_if (is_empty s) e)

unfoldable pub validate_step : String → ℕ → EscalationStepConfig → Check
unfolding target_count
validate_step name index step = do
  bail_if (step.delay_millis == 0) (ConfigError.step_delay_zero name index)
  bail_if (target_count step == 0) (ConfigError.step_no_target name index)
  bail_if (not (target_count step == 1)) (ConfigError.step_many_targets name index)
  bail_if_empty step.receiver (ConfigError.step_target_empty name index)
  bail_if_empty step.schedule (ConfigError.step_target_empty name index)
  bail_if_empty step.webhook (ConfigError.step_target_empty name index)
  bail_if_empty step.user (ConfigError.step_target_empty name index)
  bail_if_empty step.team (ConfigError.step_target_empty name index)

abbrev pub is_nil {ℓ} : {A : Type ℓ} → List A → Bool
is_nil [] = true
is_nil (x ∷ xs) = false

-- `EscalationPolicyConfig::validate`, `EscalationConfig::validate`
unfoldable pub validate_policy : String × EscalationPolicyConfig → Check
unfolding each_from validate_step
validate_policy (name, policy) = do
  bail_if (is_nil policy.steps) (ConfigError.policy_empty name)
  each_from 0 (validate_step name) policy.steps

unfoldable pub validate_escalation : EscalationConfig → Check
unfolding each validate_policy
validate_escalation escalation = each validate_policy escalation.policies

unfoldable pub validate_entry : String → ℕ → OnCallScheduleEntryConfig → Check
validate_entry name index entry = dispatch entry.receiver entry.user entry.team
  where
    one : String → Check
    one s = bail_if (is_empty s) (ConfigError.entry_target_empty name index)

    dispatch : Option String → Option String → Option String → Check
    dispatch (some receiver) none none = one receiver
    dispatch none (some user) none = one user
    dispatch none none (some team) = one team
    dispatch _ _ _ = err (ConfigError.entry_not_one_target name index)

-- `OnCallScheduleConfig::validate`, `ScheduleConfig::validate`
unfoldable pub validate_schedule : String × OnCallScheduleConfig → Check
unfolding each_from validate_entry
validate_schedule (name, schedule) = do
  bail_if (is_nil schedule.entries) (ConfigError.schedule_empty name)
  each_from 0 (validate_entry name) schedule.entries

unfoldable pub validate_schedules : ScheduleConfig → Check
unfolding each validate_schedule
validate_schedules schedules = each validate_schedule schedules.on_call

-- `IntelligenceConfig::validate`
unfoldable pub validate_intelligence : IntelligenceConfig → Check
validate_intelligence intelligence = do
  bail_if (intelligence.enabled && elim intelligence.provider [ none ↦ true | some p ↦ is_empty p ])
      ConfigError.provider_missing
  bail_if (intelligence.allow_lifecycle_mutation && not intelligence.enabled)
      ConfigError.mutation_not_enabled

abbrev pub bail_if_token_empty : Option AuthConfig → ConfigError → Check
bail_if_token_empty auth e = if_some auth (λ a. bail_if (is_empty a.bearer_token) e)

-- `ManagementConfig::validate`
unfoldable pub validate_management : ManagementConfig → Check
validate_management management = do
  bail_if_token_empty management.auth ConfigError.management_token_empty
  bail_if (management.local_users && is_empty (trim management.bootstrap_admin_password_env))
      ConfigError.bootstrap_env_empty
  bail_if (management.local_users && management.session_ttl_secs == 0) ConfigError.session_ttl_zero
