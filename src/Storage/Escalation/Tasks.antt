-- ===== src/Storage/Escalation/Tasks.antt =====
-- storage.rs, the operations on escalation tasks: the escalations of acknowledged groups.
use simple_alert_proxy.Prelude.{
  ℕ, ◌+◌, String, Bool, false, Option, none, some, ◌≡◌, refl, sym, arith, Option-cases, Bool-cases,
  inl, inr, subst, ◌⊎◌,
}
use simple_alert_proxy.Prelude.Int.{ℤ}
use simple_alert_proxy.Table.{find}
use simple_alert_proxy.Table.Laws.{IsFresh}
use simple_alert_proxy.Alert.{EventSerde}
use simple_alert_proxy.Storage.{Db, GroupRow, TaskStatus, AuditActor, no_actor, Result-cases}
use simple_alert_proxy.Storage.Groups.{is_scheduled, insert_audit}
use simple_alert_proxy.Storage.Escalation.{
  allows, schedule, queue_escalation, due_task, start_task, latest_alert_event_for_group,
  claim_due_escalation, end_task, NextStep, complete_escalation_task, fail_escalation_task,
}
use simple_alert_proxy.Storage.Escalation.Stops.{
  IsQuiet, Quiet-unscheduled, schedule-IsQuiet, schedule_lem, added_to,
}

-- The invariant: group ids are unique, and no acknowledged group has a task that it should stop.
pub record IsCalm (db : Db) : Type 0 where
  pub groups : IsFresh db.groups
  pub quiet : IsQuiet db

module _ (now : ℤ) (group : ℕ) (policy : String) (step delay : ℕ) (on_ack on_resolve : Bool)
    (db : Db) where
  schedule_groups : (schedule now group policy step delay on_ack on_resolve db).1.groups ≡ db.groups
  schedule_groups =
      subst (λ d. d.groups ≡ db.groups)
        (sym (schedule_lem now group policy step delay on_ack on_resolve db))
        (same (find group db.groups.rows))
    where
      same :
          (o : Option GroupRow)
          → (added_to now group policy step delay on_ack on_resolve db o).groups ≡ db.groups
      same none = refl
      same (some g) = elim (Bool-cases (allows on_ack on_resolve g)) [
        | inl p ↦ rw p refl
        | inr p ↦ rw p refl
      ]

  schedule-IsCalm : IsCalm db → IsCalm (schedule now group policy step delay on_ack on_resolve db).1
  schedule-IsCalm h = record {
    groups = subst IsFresh (sym schedule_groups) h.groups;
    quiet = schedule-IsQuiet now group policy step delay on_ack on_resolve db h.quiet;
  }

module _ (now : ℤ) (event : ℕ) (policy : String) (delay : ℕ) (on_ack on_resolve : Bool)
    (db : Db) where
  pub queue_after :
      ((queue_escalation now event policy delay on_ack on_resolve db).1 ≡ db)
      ⊎ ((group : ℕ) × ((queue_escalation now event policy delay on_ack on_resolve db).1
            ≡ (schedule now group policy 0 delay on_ack on_resolve db).1))
  unfolding queue_escalation
  queue_after = elim (Option-cases (find event db.events.rows)) [
    | inl e ↦ inl (ground arith)
    | inr (row, e) ↦ elim (Option-cases row.alert_group_id) [
      | inl g ↦ inl (ground arith)
      | inr (group, g) ↦ inr (group, ground arith)
    ]
  ]

  pub queue-IsCalm :
      IsCalm db → IsCalm (queue_escalation now event policy delay on_ack on_resolve db).1
  queue-IsCalm h = elim queue_after [
    | inl e ↦ subst IsCalm (sym e) h
    | inr (group, e) ↦
        subst IsCalm (sym e) (schedule-IsCalm now group policy 0 delay on_ack on_resolve db h)
  ]

claim_after :
    (serde : EventSerde) (now : ℤ) (db : Db)
    → ((claim_due_escalation serde now db).1 ≡ db)
      ⊎ ((id : ℕ) × ((claim_due_escalation serde now db).1 ≡ start_task id now db))
unfolding claim_due_escalation
claim_after serde now db = elim (Option-cases (due_task now db)) [
  | inl e ↦ inl (ground arith)
  | inr ((id, t), e) ↦ inr (
    id,
    elim (Result-cases
        (latest_alert_event_for_group serde (start_task id now db) t.alert_group_id)) [
          | inl (a, q) ↦ ground arith
          | inr (x, q) ↦ ground arith
        ],
  )
]

pub claim-IsCalm :
    (serde : EventSerde) (now : ℤ) (db : Db)
    → IsCalm db
    → IsCalm (claim_due_escalation serde now db).1
claim-IsCalm serde now db h = elim (claim_after serde now db) [
  | inl e ↦ subst IsCalm (sym e) h
  | inr (id, e) ↦ subst IsCalm (sym e) (record {
    groups = h.groups;
    quiet = Quiet-unscheduled db.groups.rows _ _ db.tasks.rows (λ t. refl) h.quiet;
  })
]

end-IsCalm :
    (id : ℕ) (status : TaskStatus) (now : ℤ) (db : Db)
    → is_scheduled status ≡ false
    → IsCalm db
    → IsCalm (end_task id status now db)
end-IsCalm id status now db off h = record {
  groups = h.groups;
  quiet = Quiet-unscheduled db.groups.rows _ _ db.tasks.rows (λ t. off) h.quiet;
}

pub complete-IsCalm :
    (now : ℤ) (id group : ℕ) (policy : String) (step : ℕ) (next : Option NextStep) (detail : String)
    (db : Db)
    → IsCalm db
    → IsCalm (complete_escalation_task now id group policy step next detail db).1
unfolding complete_escalation_task insert_audit
complete-IsCalm now id group policy step none detail db h =
    let e = end-IsCalm id TaskStatus.completed now db refl h in
    record { groups = e.groups; quiet = e.quiet }
complete-IsCalm now id group policy step (some next) detail db h =
    let e = end-IsCalm id TaskStatus.completed now db refl h in
    schedule-IsCalm now group policy (step + 1) next.delay_millis next.stop_on_ack
      next.stop_on_resolve _ (record { groups = e.groups; quiet = e.quiet })

fail_after :
    (now : ℤ) (id : ℕ) (detail : String) (db : Db)
    → ((fail_escalation_task now id detail db).1 ≡ db)
      ⊎ ((group : ℕ) × ((fail_escalation_task now id detail db).1
            ≡ insert_audit
                (some group)
                none
                no_actor
                "escalation_step_failed"
                (some detail)
                now
                (end_task id TaskStatus.failed now db)))
unfolding fail_escalation_task
fail_after now id detail db = elim (Option-cases (find id db.tasks.rows)) [
  | inl e ↦ inl (ground arith)
  | inr (t, e) ↦ inr (t.alert_group_id, ground arith)
]

pub audit-IsCalm :
    (group delivery : Option ℕ) (actor : AuditActor) (action : String) (detail : Option String)
    (now : ℤ) (db : Db)
    → IsCalm db
    → IsCalm (insert_audit group delivery actor action detail now db)
unfolding insert_audit
audit-IsCalm group delivery actor action detail now db h = record {
  groups = h.groups;
  quiet = h.quiet;
}

pub fail-IsCalm :
    (now : ℤ) (id : ℕ) (detail : String) (db : Db)
    → IsCalm db
    → IsCalm (fail_escalation_task now id detail db).1
fail-IsCalm now id detail db h = elim (fail_after now id detail db) [
  | inl e ↦ subst IsCalm (sym e) h
  | inr (group, e) ↦ subst IsCalm (sym e) (
      audit-IsCalm (some group) none no_actor "escalation_step_failed" (some detail) now _
        (end-IsCalm id TaskStatus.failed now db refl h))
]
