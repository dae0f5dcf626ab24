-- ===== src/Config/Sound.antt =====
-- config.rs: what holds of settings that pass `validate`.
use simple_alert_proxy.Prelude.{
  zero, suc, get_elem?, ℕ, ◌≤◌, String, true, Option, none, some, List, [], ◌∷◌, ◌≡◌, ◌≢◌, ◌⊎◌,
  arith, All, All-mono, is_some, ◌==◌,
}
use simple_alert_proxy.Config.{
  AppConfig, ReceiverConfig, N8nWebhookReceiverConfig, CloudEventsWebhookReceiverConfig,
  MatrixReceiverConfig, google_chat, generic_webhook, n8n_webhook, cloudevents_webhook, slack,
  mattermost, discord, matrix,
}
use simple_alert_proxy.Config.Checks.{
  if_some-ok, ConfigError, Check, ok, ◌>>◌, bail_if, if_some, each, >>-ok, each-ok,
}
use simple_alert_proxy.Config.Outside.{Outside}
use simple_alert_proxy.Config.Sections.{
  validate_limits, validate_storage, validate_delivery, validate_schedules, validate_escalation,
  validate_intelligence, validate_management, bail_if_token_empty, is_nil,
}
use simple_alert_proxy.Config.Integrations.{validate_integration, validate_integration_paths}
use simple_alert_proxy.Config.Receivers.{
  validate_template, validate_receiver, validate_n8n, validate_cloudevents, validate_matrix,
}
use simple_alert_proxy.Config.Tls.{validate_tls}
use simple_alert_proxy.Config.Validate.{
  require_receiver, check_policy, check_route, check_schedule, check_batching,
  validate_management_exposure, management_auth, validate,
}
use simple_alert_proxy.Config.Parts.{
  DeliveryIsValid, BatchingIsValid, KnowsReceiver, PolicyIsValid, RouteIsValid, EntryIsValid,
  validate_delivery-ok, check_batching-ok, require_receiver-ok, policies-ok, check_route-ok,
  check_schedule-ok,
}
use simple_alert_proxy.Config.Paths.{PathsDiffer, validate_integration_paths-ok}

-- The checks one after the other, as `?` chains them.
abbrev sequence : List Check → Check
sequence [] = ok
sequence (c ∷ []) = c
sequence (c ∷ d ∷ rest) = c >> sequence (d ∷ rest)

abbrev Passes : Option Check → Type 0
Passes none = Unit
Passes (some c) = c ≡ ok

sequence-ok : (n : ℕ) (cs : List Check) → sequence cs ≡ ok → Passes (get_elem? cs n)
sequence-ok n [] h = tt
sequence-ok zero (c ∷ []) h = h
sequence-ok (suc n) (c ∷ []) h = tt
sequence-ok zero (c ∷ d ∷ rest) h = (>>-ok c (sequence (d ∷ rest)) h).0
sequence-ok (suc n) (c ∷ d ∷ rest) h = sequence-ok n (d ∷ rest) (>>-ok c (sequence (d ∷ rest)) h).1

abbrev pub timeout_secs : ReceiverConfig → ℕ
timeout_secs (google_chat r) = r.timeout_secs
timeout_secs (generic_webhook r) = r.timeout_secs
timeout_secs (n8n_webhook r) = r.timeout_secs
timeout_secs (cloudevents_webhook r) = r.timeout_secs
timeout_secs (slack r) = r.timeout_secs
timeout_secs (mattermost r) = r.timeout_secs
timeout_secs (discord r) = r.timeout_secs
timeout_secs (matrix r) = r.timeout_secs

abbrev pub TimeoutIsValid : String × ReceiverConfig → Type 0
TimeoutIsValid e = 1 ≤ timeout_secs e.1

validate_n8n-ok :
    (outside : Outside) (name : String) (r : N8nWebhookReceiverConfig)
    → validate_n8n outside name r ≡ ok
    → 1 ≤ r.timeout_secs
unfolding validate_n8n
validate_n8n-ok outside name r h = ground arith

validate_cloudevents-ok :
    (outside : Outside) (name : String) (r : CloudEventsWebhookReceiverConfig)
    → validate_cloudevents outside name r ≡ ok
    → 1 ≤ r.timeout_secs
unfolding validate_cloudevents
validate_cloudevents-ok outside name r h = ground arith

validate_matrix-ok :
    (outside : Outside) (name : String) (r : MatrixReceiverConfig)
    → validate_matrix outside name r ≡ ok
    → 1 ≤ r.timeout_secs
unfolding validate_matrix
validate_matrix-ok outside name r h = ground arith

validate_receiver-ok :
    (outside : Outside) (e : String × ReceiverConfig)
    → validate_receiver outside e ≡ ok
    → TimeoutIsValid e
unfolding validate_receiver
validate_receiver-ok outside (name, google_chat r) h = ground arith
validate_receiver-ok outside (name, generic_webhook r) h = ground arith
validate_receiver-ok outside (name, n8n_webhook r) h =
    validate_n8n-ok outside name r
      (>>-ok (validate_template name (n8n_webhook r)) (validate_n8n outside name r) h).1
validate_receiver-ok outside (name, cloudevents_webhook r) h =
    validate_cloudevents-ok outside name r
      (>>-ok (validate_template name (cloudevents_webhook r)) (validate_cloudevents outside name r)
        h).1
validate_receiver-ok outside (name, slack r) h = ground arith
validate_receiver-ok outside (name, mattermost r) h = ground arith
validate_receiver-ok outside (name, discord r) h = ground arith
validate_receiver-ok outside (name, matrix r) h =
    validate_matrix-ok outside name r
      (>>-ok (validate_template name (matrix r)) (validate_matrix outside name r) h).1

-- Who may manage: a token, anybody, or the local users; or the listener is on a loopback address.
abbrev pub ExposureIsValid : Outside → AppConfig → Type 0
ExposureIsValid outside config =
    (is_some (management_auth config) ≡ true)
    ⊎ ((config.management.allow_unauthenticated ≡ true)
        ⊎ ((config.management.local_users ≡ true)
            ⊎ (outside.loopback config.server.bind ≡ some true)))

validate_management_exposure-ok :
    (outside : Outside) (config : AppConfig)
    → validate_management_exposure outside config ≡ ok
    → ExposureIsValid outside config
unfolding validate_management_exposure
validate_management_exposure-ok outside config h = ground arith

pub record IsValid (outside : Outside) (config : AppConfig) : Type 0 where
  pub some_receiver : config.receivers ≢ []
  pub delivery : DeliveryIsValid config.delivery
  pub batching : BatchingIsValid config.notification_batching
  pub policies : All (PolicyIsValid config) config.escalation.policies
  pub exposure : ExposureIsValid outside config
  pub paths : PathsDiffer config.integrations
  pub default_known :
      (name : String) → config.routing.default_receiver ≡ some name → KnowsReceiver config name
  pub routes : All (RouteIsValid config) config.routing.routes
  pub schedules : All (λ s. All (EntryIsValid config) s.1.entries) config.schedules.on_call
  pub timeouts : All TimeoutIsValid config.receivers

abbrev checks : Outside → AppConfig → List Check
checks outside config =
    bail_if (is_nil config.receivers) ConfigError.no_receiver
    ∷ bail_if (config.server.max_body_bytes == 0) ConfigError.body_limit_zero
    ∷ validate_limits config.server.limits
    ∷ validate_storage config.storage
    ∷ validate_delivery config.delivery
    ∷ validate_schedules config.schedules
    ∷ validate_escalation config.escalation
    ∷ each (check_policy config) config.escalation.policies
    ∷ validate_intelligence config.intelligence
    ∷ bail_if_token_empty config.server.auth ConfigError.server_token_empty
    ∷ validate_management config.management
    ∷ validate_management_exposure outside config
    ∷ if_some config.server.tls (λ tls. validate_tls outside tls)
    ∷ each validate_integration config.integrations
    ∷ validate_integration_paths config.integrations
    ∷ check_batching config.notification_batching
    ∷ if_some config.routing.default_receiver
        (λ receiver. require_receiver config receiver (ConfigError.receiver_unknown receiver))
    ∷ each (check_route config) config.routing.routes
    ∷ each (check_schedule config) config.schedules.on_call
    ∷ each (validate_receiver outside) config.receivers
    ∷ []

-- The check at a place in that list.
check_at :
    (outside : Outside) (config : AppConfig) (n : ℕ)
    → validate outside config ≡ ok
    → Passes (get_elem? (checks outside config) n)
unfolding validate
check_at outside config n h = sequence-ok n (checks outside config) h

default_receiver-ok :
    (config : AppConfig)
    → if_some config.routing.default_receiver
        (λ receiver. require_receiver config receiver (ConfigError.receiver_unknown receiver))
      ≡ ok
    → (name : String) → config.routing.default_receiver ≡ some name
    → KnowsReceiver config name
default_receiver-ok config h name e =
    require_receiver-ok config name (ConfigError.receiver_unknown name) (
      if_some-ok config.routing.default_receiver
        (λ receiver. require_receiver config receiver (ConfigError.receiver_unknown receiver)) name
        h e)

nonempty-ok :
    (config : AppConfig)
    → bail_if (is_nil config.receivers) ConfigError.no_receiver ≡ ok
    → config.receivers ≢ []
nonempty-ok config h e = ground arith

-- Settings that pass `validate` have a receiver; delivery attempts and waits of at least 1, and
-- batches of at least 1 where batching is on; policies with steps of one target each; no reference
-- to a receiver, schedule or policy that is not there; selectors that can be read; integrations at
-- different paths; receivers that wait at least a second; and nobody from outside manages without
-- authentication unless that is asked for.
pub validate-IsValid :
    (outside : Outside) (config : AppConfig) → validate outside config ≡ ok → IsValid outside config
unfolding each validate_escalation
validate-IsValid outside config h = record {
  some_receiver = nonempty-ok config (check_at outside config 0 h);
  delivery = validate_delivery-ok config.delivery (check_at outside config 4 h);
  batching = check_batching-ok config.notification_batching (check_at outside config 15 h);
  policies =
      policies-ok config config.escalation.policies (check_at outside config 6 h)
        (check_at outside config 7 h);
  exposure = validate_management_exposure-ok outside config (check_at outside config 11 h);
  paths = validate_integration_paths-ok config.integrations (check_at outside config 14 h);
  default_known = default_receiver-ok config (check_at outside config 16 h);
  routes =
      All-mono (λ r. check_route config r ≡ ok) (RouteIsValid config) (check_route-ok config)
        config.routing.routes
        (each-ok (check_route config) config.routing.routes (check_at outside config 17 h));
  schedules =
      All-mono (λ s. check_schedule config s ≡ ok) (λ s. All (EntryIsValid config) s.1.entries)
        (check_schedule-ok config) config.schedules.on_call
        (each-ok (check_schedule config) config.schedules.on_call (check_at outside config 18 h));
  timeouts =
      All-mono (λ e. validate_receiver outside e ≡ ok) TimeoutIsValid (validate_receiver-ok outside)
        config.receivers
        (each-ok (validate_receiver outside) config.receivers (check_at outside config 19 h));
}
