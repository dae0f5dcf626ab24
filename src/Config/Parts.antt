-- ===== src/Config/Parts.antt =====
-- config.rs: what each check of `validate` that other parts rely on gives.
use simple_alert_proxy.Prelude.{
  ℕ, ◌+◌, ◌≤◌, String, true, some, List, [], ◌∷◌, ◌≡◌, ◌≢◌, arith, All, All-mono,
}
use simple_alert_proxy.Prelude.Maps.{Entries, contains_key}
use simple_alert_proxy.Notification.{validate_group_by_selector}
use simple_alert_proxy.Routing.{RouteConfig}
use simple_alert_proxy.Worker.{DeliveryConfig}
use simple_alert_proxy.Config.{
  AppConfig, EscalationPolicyConfig, EscalationStepConfig, OnCallScheduleConfig,
  OnCallScheduleEntryConfig, NotificationBatchingConfig,
}
use simple_alert_proxy.Config.Checks.{
  ConfigError, ok, bail_if, each, each_from, >>-ok, each-ok, each_from-ok,
}
use simple_alert_proxy.Config.Sections.{
  validate_delivery, target_count, validate_step, validate_policy, is_nil, receiver_target,
}
use simple_alert_proxy.Config.Validate.{
  require_receiver, require_schedule, require_escalation_policy, check_step, check_policy,
  check_selector, check_route, check_entry, check_schedule, check_batching,
}

abbrev pub DeliveryIsValid : DeliveryConfig → Type 0
DeliveryIsValid d =
    (1 ≤ d.max_attempts)
    × (1 ≤ d.initial_backoff_millis)
    × (d.initial_backoff_millis ≤ d.max_backoff_millis)

pub validate_delivery-ok : (d : DeliveryConfig) → validate_delivery d ≡ ok → DeliveryIsValid d
unfolding validate_delivery
validate_delivery-ok d h = ground arith

abbrev pub BatchingIsValid : NotificationBatchingConfig → Type 0
BatchingIsValid b =
    b.enabled ≡ true → (1 ≤ b.group_wait_millis) × (1 ≤ b.max_events) × (1 ≤ b.max_payload_bytes)

pub check_batching-ok : (b : NotificationBatchingConfig) → check_batching b ≡ ok → BatchingIsValid b
unfolding check_batching
check_batching-ok b h e = ground arith

abbrev pub KnowsReceiver : AppConfig → String → Type 0
KnowsReceiver config name = contains_key name config.receivers ≡ true

pub require_receiver-ok :
    (config : AppConfig) (name : String) (e : ConfigError)
    → require_receiver config name e ≡ ok
    → KnowsReceiver config name
unfolding require_receiver
require_receiver-ok config name e h = ground arith

-- A step with one target, and the receiver and the schedule it names are there.
pub record StepIsValid (config : AppConfig) (step : EscalationStepConfig) : Type 0 where
  pub one_target : target_count step ≡ 1
  pub delayed : 1 ≤ step.delay_millis
  pub receiver_known :
      (name : String) → receiver_target step ≡ some name → KnowsReceiver config name
  pub schedule_known :
      (name : String)
      → step.schedule ≡ some name
      → contains_key name config.schedules.on_call ≡ true

validate_step-ok :
    (name : String) (index : ℕ) (step : EscalationStepConfig)
    → validate_step name index step ≡ ok
    → (target_count step ≡ 1) × (1 ≤ step.delay_millis)
unfolding validate_step
validate_step-ok name index step h = ground arith

check_step-ok :
    (config : AppConfig) (name : String) (index : ℕ) (step : EscalationStepConfig)
    → check_step config name index step ≡ ok
    → ((r : String) → receiver_target step ≡ some r → KnowsReceiver config r)
      × ((s : String) → step.schedule ≡ some s → contains_key s config.schedules.on_call ≡ true)
unfolding check_step require_receiver require_schedule
check_step-ok config name index step h = (λ r e. ground arith, λ s e. ground arith)

-- A receiver that is named is there, every selector is one that `selector_value` reads, and a
-- policy that is named is there.
pub record RouteIsValid (config : AppConfig) (route : RouteConfig) : Type 0 where
  pub receiver_known : KnowsReceiver config route.receiver
  pub selectors : All (λ s. validate_group_by_selector s ≡ true) route.group_by
  pub policy_known :
      (name : String)
      → route.escalation_policy ≡ some name
      → contains_key name config.escalation.policies ≡ true

check_selector-ok :
    (name selector : String)
    → check_selector name selector ≡ ok
    → validate_group_by_selector selector ≡ true
unfolding check_selector
check_selector-ok name selector h = ground arith

pub check_route-ok :
    (config : AppConfig) (route : RouteConfig)
    → check_route config route ≡ ok
    → RouteIsValid config route
unfolding check_route require_escalation_policy
check_route-ok config route h = record {
  receiver_known =
      require_receiver-ok config route.receiver (ConfigError.receiver_unknown route.receiver)
        (ground arith);
  selectors =
      All-mono (λ s. check_selector route.name s ≡ ok) (λ s. validate_group_by_selector s ≡ true)
        (check_selector-ok route.name) route.group_by
        (each-ok (check_selector route.name) route.group_by (ground arith));
  policy_known = λ name e. ground arith;
}

policy_steps-ok :
    (config : AppConfig) (name : String) (i : ℕ) (steps : List EscalationStepConfig)
    → each_from i (validate_step name) steps ≡ ok
    → each_from i (check_step config name) steps ≡ ok
    → All (StepIsValid config) steps
unfolding each_from
policy_steps-ok config name i [] h k = tt
policy_steps-ok config name i (step ∷ rest) h k =
    let (a, more) =
      >>-ok (validate_step name i step) (each_from (i + 1) (validate_step name) rest) h in
    let (b, others) =
      >>-ok (check_step config name i step) (each_from (i + 1) (check_step config name) rest) k in
    let (one, delay) = validate_step-ok name i step a in
    let (receiver, schedule) = check_step-ok config name i step b in
    (
      record {
        one_target = one;
        delayed = delay;
        receiver_known = receiver;
        schedule_known = schedule;
      },
      policy_steps-ok config name (i + 1) rest more others,
    )

abbrev pub PolicyIsValid : AppConfig → String × EscalationPolicyConfig → Type 0
PolicyIsValid config p = (p.1.steps ≢ []) × All (StepIsValid config) p.1.steps

pub policies-ok :
    (config : AppConfig) (policies : Entries EscalationPolicyConfig)
    → each validate_policy policies ≡ ok
    → each (check_policy config) policies ≡ ok
    → All (PolicyIsValid config) policies
unfolding each validate_policy check_policy
policies-ok config [] h k = tt
policies-ok config ((name, policy) ∷ rest) h k =
    let (a, more) = >>-ok (validate_policy (name, policy)) (each validate_policy rest) h in
    let (b, others) =
      >>-ok (check_policy config (name, policy)) (each (check_policy config) rest) k in
    let (c, d) =
      >>-ok (bail_if (is_nil policy.steps) (ConfigError.policy_empty name))
        (each_from 0 (validate_step name) policy.steps) a in
    (
      (λ e. ground arith, policy_steps-ok config name 0 policy.steps d b),
      policies-ok config rest more others,
    )

abbrev pub EntryIsValid : AppConfig → OnCallScheduleEntryConfig → Type 0
EntryIsValid config entry = (name : String) → entry.receiver ≡ some name → KnowsReceiver config name

check_entry-ok :
    (config : AppConfig) (name : String) (index : ℕ) (entry : OnCallScheduleEntryConfig)
    → check_entry config name index entry ≡ ok
    → EntryIsValid config entry
unfolding check_entry require_receiver
check_entry-ok config name index entry h r e = ground arith

pub check_schedule-ok :
    (config : AppConfig) (s : String × OnCallScheduleConfig)
    → check_schedule config s ≡ ok
    → All (EntryIsValid config) s.1.entries
unfolding check_schedule
check_schedule-ok config (name, schedule) h =
    each_from-ok (EntryIsValid config) 0 (check_entry config name) schedule.entries
      (check_entry-ok config name) h
