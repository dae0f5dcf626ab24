-- ===== src/Examples/Alerts.antt =====
-- Examples of events, groups and escalations.
use simple_alert_proxy.Prelude.{true, none, some, ◌≡◌, refl, arith, if◌then◌else◌}
use simple_alert_proxy.Prelude.Int.{pos}
use simple_alert_proxy.Table
use simple_alert_proxy.Table.{find}
use simple_alert_proxy.Table.Laws.{IsFresh}
use simple_alert_proxy.Storage.{Db, empty, GroupRow, GroupStatus, ok}
use simple_alert_proxy.Storage.Groups.{
  find_group, store_event_with_team, acknowledge_group_as, resolve_group_as, owner_team_id,
}
use simple_alert_proxy.Storage.Groups.Counts.{
  IsCounted, empty-IsCounted, store_event_with_team-IsCounted,
}
use simple_alert_proxy.Storage.Groups.Lifecycle.{
  key_is, touched, Repeated, find_group-store_event_with_team, store_event_with_team-Repeated,
}
use simple_alert_proxy.Storage.Groups.Escalations.{
  ActedOn, acknowledge_group_as-ActedOn, resolve_group_as-ActedOn,
}
use simple_alert_proxy.Storage.Retention.{prune_alerts_before}
use simple_alert_proxy.Storage.Escalation.{
  EscalationTaskRecord, queue_escalation, claim_due_escalation,
}
use simple_alert_proxy.Storage.Escalation.Stops.{IsQuiet}
use simple_alert_proxy.Storage.Escalation.Stops
use simple_alert_proxy.Storage.Escalation.Runs.{
  done, followed, event_stored, acknowledged, queued, pruned, reachable-IsQuiet,
}
use simple_alert_proxy.Examples.{disk_full, null_serde, disk_group, group_db, by_ada}

abbrev once : Db
once = (store_event_with_team null_serde (pos 1) disk_full none empty).1

once-IsCounted : IsCounted once
once-IsCounted =
    store_event_with_team-IsCounted null_serde (pos 1) disk_full none empty empty-IsCounted

store_event_with_team-IsCounted_example :
    IsCounted (store_event_with_team null_serde (pos 2) disk_full none once).1
store_event_with_team-IsCounted_example =
    store_event_with_team-IsCounted null_serde (pos 2) disk_full none once once-IsCounted

group_db-IsFresh : IsFresh group_db.groups
group_db-IsFresh = (omega arith, omega arith, tt)

find_group-store_event_with_team_example :
    find_group "integration/grafana" "disk"
      (store_event_with_team null_serde (pos 20) disk_full none group_db).1.groups.rows
    ≡ (if key_is "integration/grafana" "disk" disk_full
        then touched disk_full
            (owner_team_id group_db none)
            (pos 20)
            (find_group "integration/grafana" "disk" group_db.groups.rows)
            2
        else find_group "integration/grafana" "disk" group_db.groups.rows)
find_group-store_event_with_team_example =
    find_group-store_event_with_team null_serde (pos 20) disk_full none group_db
      "integration/grafana" "disk" group_db-IsFresh

disk_group-found :
    find_group "integration/grafana" "disk" group_db.groups.rows ≡ some (1, disk_group)
unfolding find_group
disk_group-found = refl

store_event_with_team-Repeated_example :
    (g' : GroupRow) × (find_group "integration/grafana" "disk"
        (store_event_with_team null_serde (pos 20) disk_full none group_db).1.groups.rows
      ≡ some (1, g'))
    × Repeated disk_full disk_group g'
store_event_with_team-Repeated_example =
    store_event_with_team-Repeated null_serde (pos 20) disk_full none group_db 1 disk_group
      group_db-IsFresh disk_group-found

acknowledge_group_as-ActedOn_example :
    ((acknowledge_group_as (pos 30) 1 by_ada group_db).0 ≡ ok tt)
    × ActedOn 1
        (λ t. t.stop_on_ack)
        (λ g. record g { acknowledged_at = some (pos 30); updated_at = pos 30 })
        "acknowledge"
        group_db
        (acknowledge_group_as (pos 30) 1 by_ada group_db).1
unfolding Table.exists_where
acknowledge_group_as-ActedOn_example = acknowledge_group_as-ActedOn (pos 30) 1 by_ada group_db refl

resolve_group_as-ActedOn_example :
    ((resolve_group_as (pos 30) 1 by_ada group_db).0 ≡ ok tt)
    × ActedOn 1
        (λ t. t.stop_on_resolve)
        (λ g. record g { status = GroupStatus.resolved; updated_at = pos 30 })
        "resolve"
        group_db
        (resolve_group_as (pos 30) 1 by_ada group_db).1
unfolding Table.exists_where
resolve_group_as-ActedOn_example = resolve_group_as-ActedOn (pos 30) 1 by_ada group_db refl

abbrev claimed_task : EscalationTaskRecord
claimed_task = record {
  id = 1;
  alert_group_id = 1;
  policy = "on-call";
  step_index = 2;
  alert_event_id = 1;
  event = disk_full;
}

group_db-claim : (claim_due_escalation null_serde (pos 60) group_db).0 ≡ ok (some claimed_task)
unfolding claim_due_escalation Table.select_first Table.find
group_db-claim = refl

claim_due_escalation-Claimed_example :
    Stops.Claimed
      (pos 60)
      group_db
      (claim_due_escalation null_serde (pos 60) group_db).1
      claimed_task
claim_due_escalation-Claimed_example =
    Stops.claim_due_escalation-Claimed null_serde (pos 60) group_db claimed_task
      (omega arith, omega arith, (omega arith, omega arith, tt)) group_db-claim

-- An event is stored, an escalation is queued for it, and its group is acknowledged.
abbrev escalated : Db
escalated = (queue_escalation (pos 2) 1 "on-call" 5000 true true once).1

-- The retention job runs when the event is old.
abbrev acknowledged_db : Db
acknowledged_db = (acknowledge_group_as (pos 3) 1 by_ada escalated).1

reachable-IsQuiet_example : IsQuiet (prune_alerts_before (pos 10) acknowledged_db).1
reachable-IsQuiet_example =
    reachable-IsQuiet null_serde (prune_alerts_before (pos 10) acknowledged_db).1 (
      followed empty acknowledged_db _
        (followed empty escalated _
          (followed empty once escalated
            (followed empty empty once (done empty) (event_stored (pos 1) disk_full none empty))
            (queued (pos 2) 1 "on-call" 5000 true true once))
          (acknowledged (pos 3) 1 by_ada escalated))
        (pruned (pos 10) acknowledged_db))
