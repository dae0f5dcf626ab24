-- ===== src/Pipeline/Tasks.antt =====
-- main.rs: the step of a claimed escalation task under settings that pass `validate`.
use simple_alert_proxy.Prelude.{
  ℕ, zero, suc, ◌+◌, String, true, Option, none, some, List, [], ◌∷◌, ◌++◌, get_elem?, ◌≡◌, refl,
  sym, ap, subst, ◌∙◌, arith, All, is_some, or_else, Option-cases, Bool-cases, inl, inr, str_eq,
}
use simple_alert_proxy.Prelude.Text.{append}
use simple_alert_proxy.Prelude.Maps.{Entries, get, contains_key}
use simple_alert_proxy.Table.{find}
use simple_alert_proxy.Config.{EscalationStepConfig, OnCallScheduleEntryConfig}
use simple_alert_proxy.Config.Sections.{one_if, target_count, receiver_target}
use simple_alert_proxy.Config.Parts.{KnowsReceiver, StepIsValid, EntryIsValid}
use simple_alert_proxy.Storage.{Db, GroupRow, Result, ok, err}
use simple_alert_proxy.Storage.Escalation.{EscalationTaskRecord, schedule}
use simple_alert_proxy.Pipeline.{State, Step, next_of, ◌>>◌, pure, Context}
use simple_alert_proxy.Pipeline.Anchors.{IsAnchored, IsAnchored-same}
use simple_alert_proxy.Pipeline.Queued.{Sized, queue_event_delivery-Gives}
use simple_alert_proxy.Pipeline.Delivered.{known_receiver}
use simple_alert_proxy.Pipeline.Escalating.{
  escalation_delivery, queue_to, queue_escalation_receiver_delivery, queue_entry, queue_entries,
  queue_on_call, schedule_detail, execute_to, execute_escalation_step,
}

-- A step that succeeds and leaves a database with the property.
pub record Yields {A : Type 0} (P : Db → Type 0) (r : Result A × State) : Type 0 where
  pub value : A
  pub returned : r.0 ≡ ok value
  pub holds : P r.1.db

pub next_of-Yields :
    {A B : Type 0} (P Q : Db → Type 0) (k : A → Step B) (r : Result A × State)
    → Yields P r
    → ((a : A) (t : State) → P t.db → Yields Q (k a t))
    → Yields Q (next_of k r)
next_of-Yields P Q k (ok a, t) y f = f a t y.holds
next_of-Yields P Q k (err e, t) y f = let impossible = y.returned in cc

-- What holds of every value of a map holds of the one that a key has.
pub All-get :
    {A : Type 0} (Q : A → Type 0) (k : String) (m : Entries A) (a : A)
    → All (λ e. Q e.1) m
    → get k m ≡ some a
    → Q a
unfolding get
All-get Q k [] a h e = cc
All-get Q k ((j, b) ∷ rest) a h e = elim (Bool-cases (str_eq j k)) [
  | inl p ↦ let same : b ≡ a = ground arith in subst Q same h.0
  | inr p ↦ All-get Q k rest a h.1 (ground arith)
]

pub All-get_elem :
    {A : Type 0} (Q : A → Type 0) (xs : List A) (i : ℕ) (a : A)
    → All Q xs
    → get_elem? xs i ≡ some a
    → Q a
All-get_elem Q [] i a h e = cc
All-get_elem Q (x ∷ xs) zero a h e = let same : x ≡ a = cc in subst Q same h.0
All-get_elem Q (x ∷ xs) (suc i) a h e = All-get_elem Q xs i a h.1 e

module _ (context : Context) (task : EscalationTaskRecord) where
  open context use {config, clock}

  -- The event is stored with its group, and the group of the task is there.
  abbrev pub IsReady : Db → Type 0
  IsReady db =
      IsAnchored task.alert_event_id db
      × ((g : GroupRow) × (find task.alert_group_id db.groups.rows ≡ some g))

  IsReady-same :
      (before after : Db)
      → after.groups ≡ before.groups
      → after.events ≡ before.events
      → IsReady before
      → IsReady after
  IsReady-same before after g e h = (
    IsAnchored-same task.alert_event_id before after g e h.0,
    (h.1.0, ap (λ t. find task.alert_group_id t.rows) g ∙ h.1.1),
  )

  queue_escalation_receiver_delivery-Yields :
      (name : String) (s : State)
      → Sized context task.event
      → KnowsReceiver config name
      → IsReady s.db
      → Yields IsReady (queue_escalation_receiver_delivery context task name s)
  unfolding queue_escalation_receiver_delivery
  queue_escalation_receiver_delivery-Yields name s fit known h =
      let (receiver, e) = known_receiver config name known in
      let done =
        queue_event_delivery-Gives context task.alert_event_id IsReady IsReady-same (λ db p. p.0)
          task.event s.db.deliveries.seq receiver (escalation_delivery context task name receiver) s
          fit refl h in
      subst (λ o. Yields IsReady (queue_to context task name o s)) (sym e)
        (record { value = tt; returned = done.value; holds = done.holds })

  queue_entry-Yields :
      (o : Option String) (delivered : List String) (next : List String → Step (List String))
      (s : State)
      → Sized context task.event
      → ((name : String) → o ≡ some name → KnowsReceiver config name)
      → ((l : List String) (t : State) → IsReady t.db → Yields IsReady (next l t))
      → IsReady s.db
      → Yields IsReady (queue_entry context task o delivered next s)
  queue_entry-Yields none delivered next s fit known f h = f delivered s h
  queue_entry-Yields (some receiver) delivered next s fit known f h =
      next_of-Yields IsReady IsReady (λ _. next (delivered ++ receiver ∷ []))
        (queue_escalation_receiver_delivery context task receiver s)
        (queue_escalation_receiver_delivery-Yields receiver s fit (known receiver refl) h)
        (λ _ t g. f (delivered ++ receiver ∷ []) t g)

  queue_entries-Yields :
      (entries : List OnCallScheduleEntryConfig) (delivered : List String) (s : State)
      → Sized context task.event
      → All (EntryIsValid config) entries
      → IsReady s.db
      → Yields IsReady (queue_entries context task entries delivered s)
  unfolding queue_entries
  queue_entries-Yields [] delivered s fit valid h = record {
    value = delivered;
    returned = refl;
    holds = h;
  }
  queue_entries-Yields (entry ∷ rest) delivered s fit valid h =
      queue_entry-Yields entry.receiver delivered (queue_entries context task rest) s fit valid.0
        (λ l t g. queue_entries-Yields rest l t fit valid.1 g) h

  unfoldable pub AllEntries : Type 0
  AllEntries = All (λ s. All (EntryIsValid config) s.1.entries) config.schedules.on_call

  queue_on_call-Yields :
      (name : String) (s : State)
      → Sized context task.event
      → AllEntries
      → contains_key name config.schedules.on_call ≡ true
      → IsReady s.db
      → Yields IsReady (queue_on_call context task name (get name config.schedules.on_call) s)
  unfolding contains_key AllEntries
  queue_on_call-Yields name s fit valid known h =
      elim (Option-cases (get name config.schedules.on_call)) [
        | inl e ↦ ground arith
        | inr (schedule, e) ↦
            subst (λ o. Yields IsReady (queue_on_call context task name o s)) (sym e)
              (next_of-Yields IsReady IsReady
                (λ delivered. pure (schedule_detail context task name delivered))
                (queue_entries context task schedule.entries [] s)
                (queue_entries-Yields schedule.entries [] s fit
                  (All-get (λ c. All (EntryIsValid config) c.entries) name config.schedules.on_call
                    schedule valid e)
                  h)
                (λ delivered t g. record {
                  value = schedule_detail context task name delivered;
                  returned = refl;
                  holds = g;
                }))
      ]

  queued-Yields :
      (name detail : String) (s : State)
      → Sized context task.event
      → KnowsReceiver config name
      → IsReady s.db
      → Yields IsReady ((queue_escalation_receiver_delivery context task name >> pure detail) s)
  queued-Yields name detail s fit known h =
      next_of-Yields IsReady IsReady (λ _. pure detail)
        (queue_escalation_receiver_delivery context task name s)
        (queue_escalation_receiver_delivery-Yields name s fit known h)
        (λ _ t g. record { value = detail; returned = refl; holds = g })

  execute_to-Yields :
      (r w n u t : Option String) (s : State)
      → Sized context task.event
      → AllEntries
      → one_if (is_some r)
          + one_if (is_some n)
          + one_if (is_some w)
          + one_if (is_some u)
          + one_if (is_some t)
        ≡ 1
      → ((name : String) → or_else r w ≡ some name → KnowsReceiver config name)
      → ((name : String) → n ≡ some name → contains_key name config.schedules.on_call ≡ true)
      → IsReady s.db
      → Yields IsReady (execute_to context task r w n u t s)
  execute_to-Yields (some r) w n u t s fit valid one known scheduled h =
      queued-Yields r (append "receiver:" r) s fit (known r refl) h
  execute_to-Yields none (some w) n u t s fit valid one known scheduled h =
      queued-Yields w (append "webhook:" w) s fit (known w refl) h
  execute_to-Yields none none (some name) u t s fit valid one known scheduled h =
      queue_on_call-Yields name s fit valid (scheduled name refl) h
  execute_to-Yields none none none (some u) t s fit valid one known scheduled h = record {
    value = append "user:" (append u ":deferred");
    returned = refl;
    holds = h;
  }
  execute_to-Yields none none none none (some t) s fit valid one known scheduled h = record {
    value = append "team:" (append t ":deferred");
    returned = refl;
    holds = h;
  }
  execute_to-Yields none none none none none s fit valid one known scheduled h = ground arith

  -- A valid step succeeds on an event that is stored with its group.
  pub execute_escalation_step-Yields :
      (step : EscalationStepConfig) (s : State)
      → Sized context task.event
      → AllEntries
      → StepIsValid config step
      → IsReady s.db
      → Yields IsReady (execute_escalation_step context task step s)
  unfolding execute_escalation_step target_count receiver_target
  execute_escalation_step-Yields step s fit valid one h =
      execute_to-Yields step.receiver step.webhook step.schedule step.user step.team s fit valid
        one.one_target one.receiver_known one.schedule_known h
