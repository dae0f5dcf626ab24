-- ===== src/Storage/Escalation/Runs.antt =====
-- The operations that change groups or escalation tasks, as steps on the database.
use simple_alert_proxy.Prelude.{ℕ, String, Bool, Option}
use simple_alert_proxy.Prelude.Int.{ℤ}
use simple_alert_proxy.Table.Laws.{}
use simple_alert_proxy.Alert.{AlertEvent, EventSerde}
use simple_alert_proxy.Storage.{Db, empty, AuditActor}
use simple_alert_proxy.Storage.Groups.{
  acknowledge_group_as, resolve_group_as, silence_group_as, store_event_with_team,
}
use simple_alert_proxy.Storage.Escalation.{
  queue_escalation, claim_due_escalation, NextStep, complete_escalation_task, fail_escalation_task,
}
use simple_alert_proxy.Storage.Escalation.Stops.{IsQuiet}
use simple_alert_proxy.Storage.Escalation.Tasks.{
  IsCalm, queue-IsCalm, claim-IsCalm, complete-IsCalm, fail-IsCalm,
}
use simple_alert_proxy.Storage.Retention.{prune_alerts_before}
use simple_alert_proxy.Storage.Retention.Calm.{prune-IsCalm}
use simple_alert_proxy.Storage.Escalation.Actions.{
  acknowledge-IsCalm, resolve-IsCalm, silence-IsCalm, store-IsCalm,
}

-- One operation, with any arguments, whether it succeeds or fails.
pub data Step (serde : EventSerde) : Db → Db → Type 0 where
  event_stored :
      (now : ℤ) (event : AlertEvent) (owner_team : Option String) (db : Db)
      → Step serde db (store_event_with_team serde now event owner_team db).1
  acknowledged :
      (now : ℤ) (id : ℕ) (actor : AuditActor) (db : Db)
      → Step serde db (acknowledge_group_as now id actor db).1
  resolved :
      (now : ℤ) (id : ℕ) (actor : AuditActor) (db : Db)
      → Step serde db (resolve_group_as now id actor db).1
  silenced :
      (now : ℤ) (id : ℕ) (actor : AuditActor) (db : Db)
      → Step serde db (silence_group_as now id actor db).1
  queued :
      (now : ℤ) (event : ℕ) (policy : String) (delay : ℕ) (on_ack on_resolve : Bool) (db : Db)
      → Step serde db (queue_escalation now event policy delay on_ack on_resolve db).1
  claimed : (now : ℤ) (db : Db) → Step serde db (claim_due_escalation serde now db).1
  completed :
      (now : ℤ) (id group : ℕ) (policy : String) (step : ℕ) (next : Option NextStep)
      (detail : String) (db : Db)
      → Step serde db (complete_escalation_task now id group policy step next detail db).1
  failed :
      (now : ℤ) (id : ℕ) (detail : String) (db : Db)
      → Step serde db (fail_escalation_task now id detail db).1
  -- The retention job.
  pruned : (cutoff : ℤ) (db : Db) → Step serde db (prune_alerts_before cutoff db).1

-- Any number of operations, one after the other.
pub data Runs (serde : EventSerde) : Db → Db → Type 0 where
  done : (db : Db) → Runs serde db db
  followed : (db db' db'' : Db) → Runs serde db db' → Step serde db' db'' → Runs serde db db''

-- Every operation keeps the invariant.
pub Step-IsCalm : (serde : EventSerde) (db db' : Db) → Step serde db db' → IsCalm db → IsCalm db'
Step-IsCalm serde _ _ (event_stored now event owner_team db) h =
    store-IsCalm serde now event owner_team db h
Step-IsCalm serde _ _ (acknowledged now id actor db) h = acknowledge-IsCalm now id actor db h
Step-IsCalm serde _ _ (resolved now id actor db) h = resolve-IsCalm now id actor db h
Step-IsCalm serde _ _ (silenced now id actor db) h = silence-IsCalm now id actor db h
Step-IsCalm serde _ _ (queued now event policy delay on_ack on_resolve db) h =
    queue-IsCalm now event policy delay on_ack on_resolve db h
Step-IsCalm serde _ _ (claimed now db) h = claim-IsCalm serde now db h
Step-IsCalm serde _ _ (completed now id group policy step next detail db) h =
    complete-IsCalm now id group policy step next detail db h
Step-IsCalm serde _ _ (failed now id detail db) h = fail-IsCalm now id detail db h
Step-IsCalm serde _ _ (pruned cutoff db) h = prune-IsCalm cutoff db h

-- However these operations follow each other from the empty database: an event is stored; a group is
-- acknowledged, resolved or silenced; a task is queued, claimed, completed or failed; the retention
-- job runs; no task that stops on an acknowledgement is scheduled for an acknowledged group.
pub reachable-IsQuiet : (serde : EventSerde) (db : Db) → Runs serde empty db → IsQuiet db
reachable-IsQuiet serde db r = (calm empty db r (record { groups = tt; quiet = tt })).quiet
  where
    calm : (a b : Db) → Runs serde a b → IsCalm a → IsCalm b
    calm _ _ (done a) h = h
    calm _ _ (followed a c b r s) h = Step-IsCalm serde c b s (calm a c r h)
