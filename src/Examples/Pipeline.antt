-- ===== src/Examples/Pipeline.antt =====
-- Examples of a webhook and of an escalation under settings that pass.
use simple_alert_proxy.Prelude.{
  ◌+◌, String, false, none, some, [], ◌∷◌, ◌≡◌, refl, arith, length, str_eq, All,
}
use simple_alert_proxy.Prelude.Int.{pos}
use simple_alert_proxy.Table.{find}
use simple_alert_proxy.Routing.{
  Engines, RouteEngine, engine_new, routes_new, route_new, matchers_new,
}
use simple_alert_proxy.Storage
use simple_alert_proxy.Storage.Groups.Counts.{empty-IsCounted}
use simple_alert_proxy.Storage.{Db, TaskRow, TaskStatus, ok}
use simple_alert_proxy.Storage.Escalation.{EscalationTaskRecord}
use simple_alert_proxy.Pipeline.{limits_of, State, Context, process_generic_events, answer}
use simple_alert_proxy.Pipeline.Anchors.{Fits}
use simple_alert_proxy.Pipeline.Invariant.{IsSound}
use simple_alert_proxy.Pipeline.Tasks.{IsReady}
use simple_alert_proxy.Pipeline.Keeps.{process_generic_events-IsSound}
use simple_alert_proxy.Pipeline.Webhook.{planned_receivers, process_generic_events_delivers}
use simple_alert_proxy.Pipeline.Escalating.{run_escalation_task}
use simple_alert_proxy.Pipeline.Ends.{IsEnded, run_escalation_task_ends}
use simple_alert_proxy.Examples.{
  disk_full, null_serde, group_db, due_task_row, disk_event, disk_group,
}
use simple_alert_proxy.Pipeline.Queued.{Sized}
use simple_alert_proxy.Examples.Settings.{nowhere, settings, counting, disk_worn, settings_pass}

abbrev plain : Engines
plain = record {
  Regex = String;
  regex_new = λ s. some s;
  is_match = λ r s. str_eq r s;
  pointer = λ v path. none;
}

abbrev context : Context
context = record {
  config = settings;
  serde = null_serde;
  hashing = counting;
  shown = λ n. "n";
  clock = λ db. pos 100;
}

abbrev router : RouteEngine plain
router = record {
  routes =
      record {
        name = "all";
        receiver = "chat";
        owner_team = none;
        escalation_policy = some "on-call";
        group_by = "source" ∷ "label.host" ∷ [];
        continue_matching = false;
        matchers = [];
      }
      ∷ [];
  default_receiver = some "chat";
}

router_built :
    engine_new plain settings.routing.routes settings.routing.default_receiver ≡ some router
unfolding engine_new routes_new route_new matchers_new
router_built = refl

abbrev before : State
before = record { db = group_db; spawned = [] }

fits : Fits null_serde (limits_of settings.notification_batching) disk_full
fits = (omega arith, omega arith, omega arith)

sizes : All (Sized context) (disk_full ∷ disk_worn ∷ [])
sizes = let rest : All (Sized context) (disk_worn ∷ []) = (fits, tt) in (fits, rest)

process_generic_events_delivers_example :
    let r = process_generic_events plain context router (disk_full ∷ disk_worn ∷ []) before in
    let receivers = planned_receivers plain router (disk_full ∷ disk_worn ∷ []) in
    (r.0 ≡ ok (answer context receivers)) × (r.1.db.deliveries.seq ≡ 0 + length receivers)
process_generic_events_delivers_example =
    process_generic_events_delivers plain context router nowhere (disk_full ∷ disk_worn ∷ []) before
      settings_pass router_built sizes

abbrev fresh : State
fresh = record { db = Storage.empty; spawned = [] }

empty-IsSound : IsSound (limits_of settings.notification_batching) Storage.empty
empty-IsSound = record {
  counted = empty-IsCounted;
  totalled = record {
    batches_fresh = tt;
    deliveries_fresh = tt;
    members_fresh = tt;
    owned = tt;
    totals = tt;
  };
  within = tt;
  calm = record { groups = tt; quiet = tt };
}

process_generic_events-IsSound_example :
    IsSound
      (limits_of settings.notification_batching)
      (process_generic_events plain context router (disk_full ∷ disk_worn ∷ []) fresh).1.db
process_generic_events-IsSound_example =
    process_generic_events-IsSound context plain router (disk_full ∷ disk_worn ∷ []) fresh
      (λ e. (omega arith, omega arith)) empty-IsSound

abbrev claimed_row : TaskRow
claimed_row = record due_task_row { status = TaskStatus.processing; step_index = 0 }

abbrev claimed_task : EscalationTaskRecord
claimed_task = record {
  id = 1;
  alert_group_id = 1;
  policy = "on-call";
  step_index = 0;
  alert_event_id = 1;
  event = disk_full;
}

abbrev claimed : State
claimed = record {
  db = record group_db { tasks = record { seq = 1; rows = (1, claimed_row) ∷ [] } };
  spawned = [];
}

claimed-IsReady : IsReady context claimed_task claimed.db
unfolding find
claimed-IsReady = (
  record {
    row = disk_event;
    group = 1;
    owner = disk_group;
    stored = refl;
    grouped = refl;
    found = refl;
  },
  (disk_group, refl),
)

claimed_found : find 1 claimed.db.tasks.rows ≡ some claimed_row
unfolding find
claimed_found = refl

run_escalation_task_ends_example :
    ((run_escalation_task context claimed_task claimed).0 ≡ ok tt)
    × IsEnded 1 (run_escalation_task context claimed_task claimed).1.db
run_escalation_task_ends_example =
    run_escalation_task_ends context claimed_task nowhere claimed claimed_row settings_pass
      (omega arith, omega arith, omega arith) claimed-IsReady claimed_found
