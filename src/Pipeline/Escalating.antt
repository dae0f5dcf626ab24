-- ===== src/Pipeline/Escalating.antt =====
-- main.rs: a claimed escalation task, from its policy's step to its end.
use simple_alert_proxy.Prelude.{◌+◌, String, Option, none, some, List, [], ◌∷◌, ◌++◌, get_elem?}
use simple_alert_proxy.Prelude.Maps.{get}
use simple_alert_proxy.Prelude.Text.{append}
use simple_alert_proxy.Routing.{Delivery}
use simple_alert_proxy.Config.{
  ReceiverConfig, EscalationStepConfig, EscalationPolicyConfig, OnCallScheduleConfig,
  OnCallScheduleEntryConfig, owner_team,
}
use simple_alert_proxy.Storage.{
  Error, err, receiver_not_configured, schedule_not_configured, step_without_target,
}
use simple_alert_proxy.Storage.Escalation.{
  EscalationTaskRecord, NextStep, complete_escalation_task, fail_escalation_task,
}
use simple_alert_proxy.Pipeline.{Step, ◌>>=◌, ◌>>◌, pure, on_db, Context, queue_event_delivery}

-- `bail!`
abbrev pub bail : {A : Type 0} → Error → Step A
bail e s = (err e, s)

-- `delivered.join(",")`
abbrev pub join_comma : List String → String
join_comma [] = ""
join_comma (s ∷ []) = s
join_comma (s ∷ t ∷ rest) = append s (append "," (join_comma (t ∷ rest)))

abbrev pub next_step_of : Option EscalationStepConfig → Option NextStep
next_step_of none = none
next_step_of (some step) = some (record {
  delay_millis = step.delay_millis;
  stop_on_ack = step.stop_on_ack;
  stop_on_resolve = step.stop_on_resolve;
})

module _ (context : Context) (task : EscalationTaskRecord) where
  open context use {config, shown, clock}

  abbrev pub escalation_delivery : String → ReceiverConfig → Delivery
  escalation_delivery receiver_name receiver = record {
    route_name = append "escalation:" (append task.policy (append ":" (shown task.step_index)));
    receiver = receiver_name;
    owner_team = owner_team receiver;
    escalation_policy = none;
    group_by = [];
  }

  abbrev pub queue_to : String → Option ReceiverConfig → Step (Unit {0})
  queue_to receiver_name none = bail receiver_not_configured
  queue_to receiver_name (some receiver) =
      queue_event_delivery context task.event task.alert_event_id receiver
        (escalation_delivery receiver_name receiver)

  unfoldable pub queue_escalation_receiver_delivery : String → Step (Unit {0})
  unfolding queue_event_delivery get owner_team
  queue_escalation_receiver_delivery receiver_name =
      queue_to receiver_name (get receiver_name config.receivers)

  -- The loop over the entries of a schedule, with the receivers so far.
  abbrev pub queue_entry :
      Option String → List String → (List String → Step (List String)) → Step (List String)
  queue_entry none delivered next = next delivered
  queue_entry (some receiver) delivered next = do
    queue_escalation_receiver_delivery receiver
    next (delivered ++ receiver ∷ [])

  unfoldable pub queue_entries : List OnCallScheduleEntryConfig → List String → Step (List String)
  unfolding queue_escalation_receiver_delivery
  queue_entries [] delivered = pure delivered
  queue_entries (entry ∷ rest) delivered = queue_entry entry.receiver delivered (queue_entries rest)

  abbrev pub schedule_detail : String → List String → String
  schedule_detail name [] = append "schedule:" (append name ":deferred")
  schedule_detail name (r ∷ rs) =
      append "schedule:" (append name (append ":" (join_comma (r ∷ rs))))

  abbrev pub queue_on_call : String → Option OnCallScheduleConfig → Step String
  queue_on_call name none = bail schedule_not_configured
  queue_on_call name (some schedule) = do
    delivered ← queue_entries schedule.entries []
    pure (schedule_detail name delivered)

  -- The receiver, the webhook, the schedule, the user and the team of a step: the first that is set
  -- is used.
  abbrev pub execute_to :
      Option String → Option String → Option String → Option String → Option String → Step String
  execute_to (some receiver) _ _ _ _ = do
    queue_escalation_receiver_delivery receiver
    pure (append "receiver:" receiver)
  execute_to none (some webhook) _ _ _ = do
    queue_escalation_receiver_delivery webhook
    pure (append "webhook:" webhook)
  execute_to none none (some name) _ _ = queue_on_call name (get name config.schedules.on_call)
  execute_to none none none (some user) _ = pure (append "user:" (append user ":deferred"))
  execute_to none none none none (some team) = pure (append "team:" (append team ":deferred"))
  execute_to none none none none none = bail step_without_target

  unfoldable pub execute_escalation_step : EscalationStepConfig → Step String
  unfolding queue_escalation_receiver_delivery queue_entries get
  execute_escalation_step step =
      execute_to step.receiver step.webhook step.schedule step.user step.team

  abbrev pub run_step : List EscalationStepConfig → Option EscalationStepConfig → Step (Unit {0})
  run_step steps none =
      on_db (λ now. fail_escalation_task now task.id "escalation step is no longer configured")
        clock
  run_step steps (some step) = do
    detail ← execute_escalation_step step
    on_db
        (λ now.
          complete_escalation_task now task.id task.alert_group_id task.policy task.step_index
            (next_step_of (get_elem? steps (task.step_index + 1))) detail)
        clock

  abbrev pub run_policy : Option EscalationPolicyConfig → Step (Unit {0})
  run_policy none =
      on_db (λ now. fail_escalation_task now task.id "escalation policy is no longer configured")
        clock
  run_policy (some policy) = run_step policy.steps (get_elem? policy.steps task.step_index)

  unfoldable pub run_escalation_task : Step (Unit {0})
  unfolding execute_escalation_step get
  run_escalation_task = run_policy (get task.policy config.escalation.policies)
