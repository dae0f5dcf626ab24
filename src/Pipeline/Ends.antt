-- ===== src/Pipeline/Ends.antt =====
-- main.rs: how a run of a claimed escalation task ends.
use simple_alert_proxy.Prelude.{
  ℕ, ◌+◌, String, Bool, true, Option, none, some, List, [], ◌∷◌, get_elem?, ◌≡◌, ◌≢◌, refl, sym,
  subst, arith, All, ◌==◌, if◌then◌else◌, Option-cases, Bool-cases, inl, inr,
}
use simple_alert_proxy.Prelude.Int.{ℤ}
use simple_alert_proxy.Prelude.Maps.{get}
use simple_alert_proxy.Table
use simple_alert_proxy.Table.{find, update_where, at}
use simple_alert_proxy.Table.Laws.{AllRows}
use simple_alert_proxy.Config.{EscalationStepConfig, EscalationPolicyConfig}
use simple_alert_proxy.Config.Outside.{Outside}
use simple_alert_proxy.Config.Checks.{Check}
use simple_alert_proxy.Config.Parts.{StepIsValid}
use simple_alert_proxy.Config.Sound.{IsValid, validate-IsValid}
use simple_alert_proxy.Config.Validate.{validate}
use simple_alert_proxy.Storage.{Db, GroupRow, TaskRow, TaskStatus, ok, no_actor}
use simple_alert_proxy.Storage.Groups.{insert_audit}
use simple_alert_proxy.Storage.Escalation.Stops.{schedule_lem, added_to}
use simple_alert_proxy.Storage.Escalation.{
  allows, end_task, EscalationTaskRecord, NextStep, new_task, schedule, group_allows_escalation,
  complete_escalation_task, fail_escalation_task,
}
use simple_alert_proxy.Pipeline.{State, Step, on_db, Context}
use simple_alert_proxy.Pipeline.Queued.{Sized}
use simple_alert_proxy.Pipeline.Escalating.{
  execute_escalation_step, next_step_of, run_step, run_policy, run_escalation_task,
}
use simple_alert_proxy.Pipeline.Tasks.{
  Yields, next_of-Yields, All-get, All-get_elem, IsReady, AllEntries,
  execute_escalation_step-Yields,
}

-- The task is not left in the state of a claimed one.
abbrev pub Ended : ℕ → ℕ → TaskRow → Type 0
Ended id i t = i ≡ id → t.status ≢ TaskStatus.processing

abbrev pub IsEnded : ℕ → Db → Type 0
IsEnded id db = AllRows (Ended id) db.tasks.rows

update-Ended :
    (id : ℕ) (status : TaskStatus) (now : ℤ) (rows : List (ℕ × TaskRow))
    → status ≢ TaskStatus.processing
    → AllRows
        (Ended id)
        (update_where (at id) (λ t. record t { status = status; updated_at = now }) rows)
unfolding update_where
update-Ended id status now [] off = tt
update-Ended id status now ((i, t) ∷ rest) off = (one, update-Ended id status now rest off)
  where
    one :
        i ≡ id
        → (if i == id then record t { status = status; updated_at = now } else t).status
          ≢ TaskStatus.processing
    one e q =
        let p : (i == id) ≡ true = ground arith in
        off (
          subst
            (λ b.
              (if b then record t { status = status; updated_at = now } else t).status
              ≡ TaskStatus.processing)
            p q)

schedule_ok :
    (now : ℤ) (group : ℕ) (policy : String) (step delay : ℕ) (on_ack on_resolve : Bool) (db : Db)
    (g : GroupRow)
    → find group db.groups.rows ≡ some g
    → (schedule now group policy step delay on_ack on_resolve db).0 ≡ ok tt
unfolding schedule group_allows_escalation
schedule_ok now group policy step delay on_ack on_resolve db g e = ground arith

schedule-Ended :
    (now : ℤ) (id group : ℕ) (policy : String) (step delay : ℕ) (on_ack on_resolve : Bool) (db : Db)
    (g : GroupRow)
    → find group db.groups.rows ≡ some g
    → IsEnded id db
    → ((schedule now group policy step delay on_ack on_resolve db).0 ≡ ok tt)
      × IsEnded id (schedule now group policy step delay on_ack on_resolve db).1
unfolding Table.insert new_task
schedule-Ended now id group policy step delay on_ack on_resolve db g e h = (
  schedule_ok now group policy step delay on_ack on_resolve db g e,
  subst (IsEnded id) (sym (schedule_lem now group policy step delay on_ack on_resolve db)) (
      subst (λ o. IsEnded id (added_to now group policy step delay on_ack on_resolve db o)) (sym e)
        added),
)
  where
    added : IsEnded id (added_to now group policy step delay on_ack on_resolve db (some g))
    added = elim (Bool-cases (allows on_ack on_resolve g)) [
      | inl p ↦ rw p (λ same q. ground arith, h)
      | inr p ↦ rw p h
    ]

complete-Ended :
    (now : ℤ) (id group : ℕ) (policy : String) (step : ℕ) (next : Option NextStep) (detail : String)
    (db : Db) (g : GroupRow)
    → find group db.groups.rows ≡ some g
    → ((complete_escalation_task now id group policy step next detail db).0 ≡ ok tt)
      × IsEnded id (complete_escalation_task now id group policy step next detail db).1
unfolding complete_escalation_task insert_audit
complete-Ended now id group policy step none detail db g e =
    (refl, update-Ended id TaskStatus.completed now db.tasks.rows (λ q. ground arith))
complete-Ended now id group policy step (some next) detail db g e =
    schedule-Ended now id group policy (step + 1) next.delay_millis next.stop_on_ack
      next.stop_on_resolve
      (insert_audit (some group) none no_actor "escalation_step" (some detail) now
        (end_task id TaskStatus.completed now db))
      g e (update-Ended id TaskStatus.completed now db.tasks.rows (λ q. ground arith))

fail-Ended :
    (now : ℤ) (id : ℕ) (detail : String) (db : Db) (t : TaskRow)
    → find id db.tasks.rows ≡ some t
    → ((fail_escalation_task now id detail db).0 ≡ ok tt)
      × IsEnded id (fail_escalation_task now id detail db).1
unfolding fail_escalation_task insert_audit
fail-Ended now id detail db t e =
    let failed =
      insert_audit (some t.alert_group_id) none no_actor "escalation_step_failed" (some detail) now
        (end_task id TaskStatus.failed now db) in
    let same : fail_escalation_task now id detail db ≡ (ok tt, failed) = ground arith in
    subst (λ r. (r.0 ≡ ok tt) × IsEnded id r.1) (sym same)
      (refl, update-Ended id TaskStatus.failed now db.tasks.rows (λ q. ground arith))

module _ (context : Context) (task : EscalationTaskRecord) where
  open context use {config, clock}

  abbrev EndsWell : State → Step (Unit {0}) → Type 0
  EndsWell s m = ((m s).0 ≡ ok tt) × IsEnded task.id (m s).1.db

  run_step-EndsWell :
      (steps : List EscalationStepConfig) (o : Option EscalationStepConfig) (s : State)
      (t : TaskRow)
      → Sized context task.event
      → AllEntries context task
      → ((step : EscalationStepConfig) → o ≡ some step → StepIsValid config step)
      → IsReady context task s.db
      → find task.id s.db.tasks.rows ≡ some t
      → EndsWell s (run_step context task steps o)
  run_step-EndsWell steps none s t fit valid one h e =
      fail-Ended (clock s.db) task.id "escalation step is no longer configured" s.db t e
  run_step-EndsWell steps (some step) s t fit valid one h e =
      let done : Yields (IsEnded task.id) (run_step context task steps (some step) s) =
        next_of-Yields (IsReady context task) (IsEnded task.id)
          (λ detail.
            on_db
              (λ now.
                complete_escalation_task now task.id task.alert_group_id task.policy task.step_index
                  (next_step_of (get_elem? steps (task.step_index + 1))) detail)
              clock)
          (execute_escalation_step context task step s)
          (execute_escalation_step-Yields context task step s fit valid (one step refl) h)
          (λ detail u ready.
            let ended =
              complete-Ended (clock u.db) task.id task.alert_group_id task.policy task.step_index
                (next_step_of (get_elem? steps (task.step_index + 1))) detail u.db ready.1.0
                ready.1.1 in
            record { value = tt; returned = ended.0; holds = ended.1 }) in
      (done.returned, done.holds)

  -- Under settings that pass `validate`, on sizes that are `i64`s, the run of a task that is stored,
  -- whose event is stored with its group and whose group is there, succeeds and leaves no task of its
  -- id in the state of a claimed one.
  pub run_escalation_task_ends :
      (outside : Outside) (s : State) (t : TaskRow)
      → validate outside config ≡ Check.ok
      → Sized context task.event
      → IsReady context task s.db
      → find task.id s.db.tasks.rows ≡ some t
      → ((run_escalation_task context task s).0 ≡ ok tt)
        × IsEnded task.id (run_escalation_task context task s).1.db
  unfolding run_escalation_task AllEntries
  run_escalation_task_ends outside s t passes fit h e =
      elim (Option-cases (get task.policy config.escalation.policies)) [
        | inl f ↦
            subst (λ o. EndsWell s (run_policy context task o)) (sym f)
              (fail-Ended (clock s.db) task.id "escalation policy is no longer configured" s.db t e)
        | inr (policy, f) ↦
            subst (λ o. EndsWell s (run_policy context task o)) (sym f)
              (run_step-EndsWell policy.steps (get_elem? policy.steps task.step_index) s t fit
                valid.schedules
                (λ step g.
                  All-get_elem (StepIsValid config) policy.steps task.step_index step
                    (steps policy f) g)
                h e)
      ]
    where
      valid : IsValid outside config
      valid = validate-IsValid outside config passes

      steps :
          (policy : EscalationPolicyConfig)
          → get task.policy config.escalation.policies ≡ some policy
          → All (StepIsValid config) policy.steps
      steps policy f =
          (All-get (λ p. (p.steps ≢ []) × All (StepIsValid config) p.steps) task.policy
            config.escalation.policies policy valid.policies f).1
