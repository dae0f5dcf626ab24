-- ===== src/Notification/Counts.antt =====
-- notification.rs: the counts of a batch, against its flattened instances.
use simple_alert_proxy.Prelude.{
  ℕ, ◌+◌, max, String, List, [], ◌∷◌, ◌++◌, ◌≡◌, refl, arith, length, length-append, if◌then◌else◌,
  str_eq, str_eq_iff, unwrap_or,
}
use simple_alert_proxy.Prelude.Maps.{Entries, get}
use simple_alert_proxy.Alert.{AlertEvent, AlertInstance}
use simple_alert_proxy.Notification.{
  NotificationBatch, flatten_event, flatten_own, count_own, flatten_events, flattened_instances,
  instance_count, sum_instances, count_severity, count_instances, count_event, count_events,
  severity_counts,
}

-- How many of the instances have the severity.
abbrev pub having : String → List AlertInstance → ℕ
having s [] = 0
having s (i ∷ rest) = (if str_eq i.severity s then 1 else 0) + having s rest

-- What a map says of the severity, 0 where it says nothing.
unfoldable pub entered : String → Entries ℕ → ℕ
entered s counts = unwrap_or (get s counts) 0

having-append :
    (s : String) (is js : List AlertInstance) → having s (is ++ js) ≡ having s is + having s js
having-append s [] js = omega arith
having-append s (i ∷ is) js = omega (arith, having-append s is js)

entered-count_severity :
    (s x : String) (counts : Entries ℕ)
    → entered s (count_severity x counts) ≡ entered s counts + (if str_eq x s then 1 else 0)
unfolding entered get count_severity
entered-count_severity s x [] = ground arith
entered-count_severity s x ((t, n) ∷ rest) =
    ground (arith, str_eq_iff t x, str_eq_iff t s, str_eq_iff x s, entered-count_severity s x rest)

entered-count_instances :
    (s : String) (is : List AlertInstance) (counts : Entries ℕ)
    → entered s (count_instances is counts) ≡ entered s counts + having s is
unfolding count_instances
entered-count_instances s [] counts = omega arith
entered-count_instances s (i ∷ is) counts = omega (
  arith,
  entered-count_instances s is (count_severity i.severity counts),
  entered-count_severity s i.severity counts,
)

entered-count_own :
    (s : String) (event : AlertEvent) (is : List AlertInstance) (counts : Entries ℕ)
    → entered s (count_own event is counts) ≡ entered s counts + having s (flatten_own event is)
unfolding count_own
entered-count_own s event [] counts = omega (arith, entered-count_severity s event.severity counts)
entered-count_own s event (i ∷ rest) counts = entered-count_instances s (i ∷ rest) counts

entered-count_events :
    (s : String) (events : List AlertEvent) (counts : Entries ℕ)
    → entered s (count_events events counts) ≡ entered s counts + having s (flatten_events events)
unfolding count_events count_event flatten_events
entered-count_events s [] counts = omega arith
entered-count_events s (event ∷ rest) counts = omega (
  arith,
  entered-count_events s rest (count_event event counts),
  entered-count_own s event event.instances counts,
  having-append s (flatten_event event) (flatten_events rest),
)

-- The severity counts of a batch say of each severity how many of the flattened instances have it.
pub entered-severity_counts :
    (s : String) (batch : NotificationBatch)
    → entered s (severity_counts batch) ≡ having s (flattened_instances batch)
unfolding severity_counts flattened_instances entered get
entered-severity_counts s batch = omega (arith, entered-count_events s batch.events [])

length-flatten_own :
    (event : AlertEvent) (is : List AlertInstance)
    → length (flatten_own event is) ≡ max (length is) 1
length-flatten_own event [] = omega arith
length-flatten_own event (i ∷ rest) = omega arith

length-flatten_events :
    (events : List AlertEvent) → length (flatten_events events) ≡ sum_instances events
unfolding flatten_events sum_instances
length-flatten_events [] = refl
length-flatten_events (event ∷ rest) = omega (
  arith,
  length-append (flatten_event event) (flatten_events rest),
  length-flatten_own event event.instances,
  length-flatten_events rest,
)

-- The instance count of a batch is the number of its flattened instances.
length-flattened_instances :
    (batch : NotificationBatch) → length (flattened_instances batch) ≡ instance_count batch
unfolding flattened_instances instance_count
length-flattened_instances batch = length-flatten_events batch.events
