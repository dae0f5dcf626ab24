-- ===== src/Notification.antt =====
-- notification.rs: what a batch of notifications holds, and the key that batches them.
pub mod Counts
pub mod Keys
use Prim.Native.String
use simple_alert_proxy.Prelude.{
  ℕ, zero, suc, ◌+◌, ◌/◌, ◌%◌, max, ltb, String, Bool, true, false, ◌||◌, not, Option, none, some,
  List, [], ◌∷◌, ◌++◌, length, any, if◌then◌else◌, or_else, ◌>>=◌, str_eq,
}
use simple_alert_proxy.Prelude.Maps.{Entries}
use simple_alert_proxy.Prelude.Text.{is_empty, strip_prefix, is_one_of, append}
use simple_alert_proxy.Alert.{AlertEvent, AlertInstance, map_get}
use simple_alert_proxy.Routing.{Delivery}

pub record NotificationBatch : Type 0 where
  pub group_key : String
  pub events : List AlertEvent

-- `NotificationBatch::primary`: `none` is the panic of `expect`.
unfoldable pub primary : NotificationBatch → Option AlertEvent
primary batch = elim batch.events [ [] ↦ none | ◌∷◌ event rest ↦ some event ]

unfoldable pub sum_instances : List AlertEvent → ℕ
sum_instances [] = 0
sum_instances (event ∷ rest) = max (length event.instances) 1 + sum_instances rest

unfoldable pub instance_count : NotificationBatch → ℕ
unfolding sum_instances
instance_count batch = sum_instances batch.events

-- `*counts.entry(severity).or_default() += 1`: an entry that is there grows, and a new one is
-- entered at the end, where the source's map has it in key order.
unfoldable pub count_severity : String → Entries ℕ → Entries ℕ
count_severity severity [] = (severity, 1) ∷ []
count_severity severity ((s, n) ∷ rest) =
    if str_eq s severity then (s, n + 1) ∷ rest else (s, n) ∷ count_severity severity rest

unfoldable pub count_instances : List AlertInstance → Entries ℕ → Entries ℕ
unfolding count_severity
count_instances [] counts = counts
count_instances (i ∷ rest) counts = count_instances rest (count_severity i.severity counts)

-- The two branches of the loops over the events, by whether the event has instances.
unfoldable pub count_own : AlertEvent → List AlertInstance → Entries ℕ → Entries ℕ
unfolding count_severity count_instances
count_own event [] counts = count_severity event.severity counts
count_own event (i ∷ rest) counts = count_instances (i ∷ rest) counts

unfoldable pub count_event : AlertEvent → Entries ℕ → Entries ℕ
unfolding count_own
count_event event counts = count_own event event.instances counts

unfoldable pub count_events : List AlertEvent → Entries ℕ → Entries ℕ
unfolding count_event
count_events [] counts = counts
count_events (event ∷ rest) counts = count_events rest (count_event event counts)

unfoldable pub severity_counts : NotificationBatch → Entries ℕ
unfolding count_events
severity_counts batch = count_events batch.events []

abbrev pub as_instance : AlertEvent → AlertInstance
as_instance event = record {
  status = event.status;
  severity = event.severity;
  title = event.title;
  body = event.body;
  labels = event.labels;
  annotations = event.annotations;
  links = event.links;
  starts_at = event.starts_at;
  ends_at = event.ends_at;
  fingerprint = some event.fingerprint;
}

abbrev pub flatten_own : AlertEvent → List AlertInstance → List AlertInstance
flatten_own event [] = as_instance event ∷ []
flatten_own event (i ∷ rest) = i ∷ rest

abbrev pub flatten_event : AlertEvent → List AlertInstance
flatten_event event = flatten_own event event.instances

unfoldable pub flatten_events : List AlertEvent → List AlertInstance
flatten_events [] = []
flatten_events (event ∷ rest) = flatten_event event ++ flatten_events rest

unfoldable pub flattened_instances : NotificationBatch → List AlertInstance
unfolding flatten_events
flattened_instances batch = flatten_events batch.events

-- `selector_value`
abbrev pub non_empty : Option String → Option String
non_empty o = elim o [ none ↦ none | some value ↦ if is_empty value then none else some value ]

abbrev pub map_value : Option String → List (String × String) → Option String
map_value name m = elim name [ none ↦ none | some n ↦ map_get m n ]

unfoldable pub selected : AlertEvent → String → Option String
selected event selector =
    if str_eq selector "event_id"
    then some event.event_id
    else if str_eq selector "integration"
    then some event.integration
    else if str_eq selector "group_namespace"
    then some event.group_namespace
    else if str_eq selector "source"
    then some event.source
    else if str_eq selector "status"
    then some event.status
    else if str_eq selector "severity"
    then some event.severity
    else if str_eq selector "title"
    then some event.title
    else if str_eq selector "fingerprint"
    then some event.fingerprint
    else or_else (map_value (strip_prefix "label." selector) event.labels)
        (map_value (strip_prefix "annotation." selector) event.annotations)

unfoldable pub selector_value : AlertEvent → String → Option String
unfolding selected
selector_value event selector = non_empty (selected event selector)

abbrev pub names_something : Option String → Bool
names_something o = elim o [ none ↦ false | some name ↦ not (is_empty name) ]

abbrev pub event_fields : List String
event_fields =
    "event_id" ∷ "integration" ∷ "group_namespace" ∷ "source" ∷ "status" ∷ "severity" ∷ "title"
    ∷ "fingerprint" ∷ []

unfoldable pub validate_group_by_selector : String → Bool
validate_group_by_selector selector =
    is_one_of event_fields selector
    || names_something (strip_prefix "label." selector)
    || names_something (strip_prefix "annotation." selector)

-- `iter().map(…).collect::<Option<Vec<_>>>()`
unfoldable pub collect_grouping : AlertEvent → List String → Option (List (String × String))
unfolding selector_value
collect_grouping event [] = some []
collect_grouping event (selector ∷ rest) = do
  value ← selector_value event selector
  values ← collect_grouping event rest
  some ((selector, value) ∷ values)

unfoldable pub grouping_of : AlertEvent → Delivery → Option (List (String × String))
unfolding collect_grouping
grouping_of event delivery = elim delivery.group_by [
  | [] ↦ do hint ← event.notification_group_key; some (("source_hint", hint) ∷ [])
  | ◌∷◌ s rest ↦ collect_grouping event (s ∷ rest)
]

-- The tuple that is hashed.
pub record Identity : Type 0 where
  pub receiver : String
  pub route_name : String
  pub owner_team : Option String
  pub escalation_policy : Option String
  pub group_namespace : String
  pub status : String
  pub grouping : List (String × String)

-- What the crates serde_json and sha2 give, over lists of bytes.
pub record Hashing : Type 0 where
  pub to_vec : Identity → List ℕ
  pub sha256 : List ℕ → List ℕ

-- `format!("{byte:02x}")`, collected.
abbrev pub digit_from : ℕ → String → String
digit_from n String.[] = String.[]
digit_from zero (String.◌∷◌ c s) = String.◌∷◌ c String.[]
digit_from (suc n) (String.◌∷◌ c s) = digit_from n s

abbrev pub hex_digit : ℕ → String
hex_digit n = digit_from n "0123456789abcdef"

unfoldable pub hex : List ℕ → String
hex [] = ""
hex (byte ∷ rest) = append (hex_digit (byte / 16)) (append (hex_digit (byte % 16)) (hex rest))

abbrev pub identity_of : AlertEvent → Delivery → List (String × String) → Identity
identity_of event delivery grouping = record {
  receiver = delivery.receiver;
  route_name = delivery.route_name;
  owner_team = delivery.owner_team;
  escalation_policy = delivery.escalation_policy;
  group_namespace = event.group_namespace;
  status = event.status;
  grouping = grouping;
}

unfoldable pub batch_key : Hashing → AlertEvent → Delivery → Option String
unfolding grouping_of hex
batch_key hashing event delivery = elim (grouping_of event delivery) [
  | none ↦ none
  | some grouping ↦
      if any (λ g. is_empty g.1) grouping
      then none
      else some (hex (hashing.sha256 (hashing.to_vec (identity_of event delivery grouping))))
]
