-- ===== src/Examples/Settings.antt =====
-- Examples of settings and of the keys of batches.
use simple_alert_proxy.Prelude.{
  ℕ, String, true, false, none, some, List, [], ◌∷◌, ◌≡◌, ◌≢◌, ◌⊎◌, refl, arith, length, All, map,
  ◌%◌,
}
use simple_alert_proxy.Prelude.Text.{trim}
use simple_alert_proxy.Alert.{AlertEvent, map_get}
use simple_alert_proxy.Routing.{RouteConfig, Delivery}
use simple_alert_proxy.Config.{AppConfig, ReceiverConfig, generic_webhook, EscalationStepConfig}
use simple_alert_proxy.Config.Outside.{Outside}
use simple_alert_proxy.Config.Checks.{Check}
use simple_alert_proxy.Config.Validate.{validate}
use simple_alert_proxy.Config.Sound.{IsValid, validate-IsValid}
use simple_alert_proxy.Notification.{Hashing, batch_key, grouping_of, identity_of}
use simple_alert_proxy.Notification.Keys.{IsByte, batch_key_injective}
use simple_alert_proxy.Examples.{disk_full, to_chat}

-- An environment with nothing set, where no URL parses and no address is a loopback one.
abbrev pub nowhere : Outside
nowhere = record {
  url_parse = λ s. none;
  header_name = λ s. none;
  is_header_value = λ s. true;
  parses_on_base = λ s. true;
  loopback = λ s. some false;
  env_var = λ s. none;
}

abbrev chat : ReceiverConfig
chat = generic_webhook (record {
  webhook_url = "https://chat.example.test/hook";
  owner_team = some "infra";
  timeout_secs = 10;
  template = none;
})

abbrev page_chat : EscalationStepConfig
page_chat = record {
  receiver = some "chat";
  schedule = none;
  webhook = none;
  user = none;
  team = none;
  delay_millis = 60000;
  stop_on_ack = true;
  stop_on_resolve = true;
}

abbrev all_to_chat : RouteConfig
all_to_chat = record {
  name = "all";
  receiver = "chat";
  owner_team = none;
  escalation_policy = some "on-call";
  continue_matching = false;
  group_by = "source" ∷ "label.host" ∷ [];
  matchers = [];
}

abbrev pub settings : AppConfig
settings = record {
  server = record {
    bind = "0.0.0.0:8080";
    webhook_path = "/webhooks/signoz";
    max_body_bytes = 1048576;
    limits = record { webhook_concurrency = 64; management_concurrency = 16 };
    auth = some (record { bearer_token = "token" });
    tls = none;
  };
  management = record {
    auth = none;
    allow_unauthenticated = false;
    local_users = true;
    bootstrap_admin_password_env = "PASSWORD";
    session_ttl_secs = 28800;
    secure_cookies = none;
  };
  integrations = [];
  storage = record { storage_type = "sqlite"; path = "alerts.db"; retention_days = 90 };
  delivery = record { max_attempts = 3; initial_backoff_millis = 250; max_backoff_millis = 30000 };
  escalation = record { policies = ("on-call", record { steps = page_chat ∷ [] }) ∷ [] };
  schedules = record { on_call = [] };
  intelligence = record { enabled = false; provider = none; allow_lifecycle_mutation = false };
  notification_batching = record {
    enabled = true;
    group_wait_millis = 1000;
    max_events = 100;
    max_payload_bytes = 262144;
  };
  debug = record { log_alerts = false; log_full_payloads = false };
  routing = record { default_receiver = some "chat"; routes = all_to_chat ∷ [] };
  receivers = ("chat", chat) ∷ [];
}

pub settings_pass : validate nowhere settings ≡ Check.ok
unfolding validate trim
settings_pass = refl

validate-IsValid_example : IsValid nowhere settings
validate-IsValid_example = validate-IsValid nowhere settings settings_pass

-- A hash that is the encoding, which is the number of groupings.
abbrev pub counting : Hashing
counting = record {
  to_vec = λ i. length i.grouping ∷ [];
  sha256 = λ bytes. map (λ b. b % 256) bytes;
}

counting_bytes : (xs : List ℕ) → All IsByte (counting.sha256 xs)
counting_bytes [] = tt
counting_bytes (x ∷ xs) = (omega arith, counting_bytes xs)

abbrev by_host : Delivery
by_host = record to_chat { group_by = "label.host" ∷ [] }

-- The same host, another disk.
abbrev pub disk_worn : AlertEvent
disk_worn = record disk_full {
  event_id = "grafana:worn";
  title = "Disk worn";
  fingerprint = "worn";
}

abbrev host_group : List (String × String)
host_group = ("label.host", "db1") ∷ []

full_grouping : grouping_of disk_full by_host ≡ some host_group
unfolding grouping_of map_get
full_grouping = refl

worn_grouping : grouping_of disk_worn by_host ≡ some host_group
unfolding grouping_of map_get
worn_grouping = refl

full_key : batch_key counting disk_full by_host ≡ some "01"
unfolding batch_key map_get
full_key = refl

worn_key : batch_key counting disk_worn by_host ≡ some "01"
unfolding batch_key map_get
worn_key = refl

batch_key_injective_example :
    (identity_of disk_full by_host host_group ≡ identity_of disk_worn by_host host_group)
    ⊎ ((counting.to_vec (identity_of disk_full by_host host_group)
          ≢ counting.to_vec (identity_of disk_worn by_host host_group))
        × (counting.sha256 (counting.to_vec (identity_of disk_full by_host host_group))
            ≡ counting.sha256 (counting.to_vec (identity_of disk_worn by_host host_group))))
batch_key_injective_example =
    batch_key_injective counting disk_full disk_worn by_host by_host host_group host_group "01"
      counting_bytes (λ e. refl) full_grouping worn_grouping full_key worn_key
