-- ===== src/Storage/Escalation/Stops.antt =====
-- storage.rs, `claim_due_escalation` and `queue_escalation`: when a task may be claimed, and which
-- tasks an acknowledgement should have stopped.
use simple_alert_proxy.Prelude.{
  ℕ, String, Bool, true, false, ◌&&◌, Option, none, some, List, [], ◌∷◌, ◌==◌, if◌then◌else◌,
  is_some, ◌≡◌, refl, sym, arith, Option-cases, Bool-cases, inl, inr, subst, ==_refl,
}
use simple_alert_proxy.Prelude.Int.{ℤ, leb_ℤ, as_i64, i64_add}
use simple_alert_proxy.Table
use simple_alert_proxy.Table.{Table, find, update_where, select_first, with_rows, at}
use simple_alert_proxy.Table.Laws.{
  IsFresh, AllRows, AllRows-mono, AllRows-update_where_into, select_first-find, select_first_sound,
  find-update_where_cases,
}
use simple_alert_proxy.Alert.{EventSerde}
use simple_alert_proxy.Storage.{Db, GroupRow, TaskRow, TaskStatus, ok}
use simple_alert_proxy.Storage.Groups.{is_scheduled}
use simple_alert_proxy.Storage.Escalation.{
  allows, group_allows_escalation, new_task, insert_task, schedule, EscalationTaskRecord,
  claimable_task, due_task, start_task, claim_due_escalation, sooner,
}

-- The claimed task was scheduled and due, its group allows it, and it is taken out of the schedule.
pub record Claimed (now : ℤ) (before after : Db) (r : EscalationTaskRecord) : Type 0 where
  pub task : TaskRow
  pub group : GroupRow
  pub stored : find r.id before.tasks.rows ≡ some task
  pub scheduled : task.status ≡ TaskStatus.scheduled
  pub due : leb_ℤ task.due_at now ≡ true
  pub group_stored : find r.alert_group_id before.groups.rows ≡ some group
  pub allowed : allows task.stop_on_ack task.stop_on_resolve group ≡ true
  pub step : r.step_index ≡ task.step_index
  pub taken :
      find r.id after.tasks.rows
      ≡ some (record task { status = TaskStatus.processing; updated_at = now })

claim_some :
    (serde : EventSerde) (now : ℤ) (db : Db) (id : ℕ) (t : TaskRow) (r : EscalationTaskRecord)
    → due_task now db ≡ some (id, t)
    → (claim_due_escalation serde now db).0 ≡ ok (some r)
    → (r.id ≡ id)
      × (r.alert_group_id ≡ t.alert_group_id)
      × (r.step_index ≡ t.step_index)
      × ((claim_due_escalation serde now db).1 ≡ start_task id now db)
unfolding claim_due_escalation
claim_some serde now db id t r e h = ground arith

claim_none :
    (serde : EventSerde) (now : ℤ) (db : Db)
    → due_task now db ≡ none
    → (claim_due_escalation serde now db).0 ≡ ok none
unfolding claim_due_escalation
claim_none serde now db e = ground arith

scheduled_status : (s : TaskStatus) → is_scheduled s ≡ true → s ≡ TaskStatus.scheduled
scheduled_status TaskStatus.scheduled h = refl
scheduled_status TaskStatus.processing h = absurd (cc)
scheduled_status TaskStatus.completed h = absurd (cc)
scheduled_status TaskStatus.failed h = absurd (cc)
scheduled_status TaskStatus.canceled h = absurd (cc)

claimable :
    (now : ℤ) (db : Db) (id : ℕ) (t : TaskRow)
    → claimable_task now db id t ≡ true
    → (g : GroupRow) × (find t.alert_group_id db.groups.rows ≡ some g)
      × (is_scheduled t.status ≡ true)
      × (leb_ℤ t.due_at now ≡ true)
      × (allows t.stop_on_ack t.stop_on_resolve g ≡ true)
unfolding claimable_task
claimable now db id t h = elim (Option-cases (find t.alert_group_id db.groups.rows)) [
  | inl e ↦ absurd (ground arith)
  | inr (g, e) ↦ (g, e, ground arith, ground arith, ground arith)
]

started :
    (id : ℕ) (now : ℤ) (db : Db) (t : TaskRow)
    → find id db.tasks.rows ≡ some t
    → is_scheduled t.status ≡ true
    → find id (start_task id now db).tasks.rows
      ≡ some (record t { status = TaskStatus.processing; updated_at = now })
started id now db t e h = ground (
  arith,
  find-update_where_cases (λ i a. i == id && is_scheduled a.status)
      (λ a. record a { status = TaskStatus.processing; updated_at = now }) id db.tasks.rows,
  ==_refl id,
)

chosen :
    (now : ℤ) (db : Db) (id : ℕ) (t : TaskRow)
    → IsFresh db.tasks
    → due_task now db ≡ some (id, t)
    → (find id db.tasks.rows ≡ some t) × (claimable_task now db id t ≡ true)
unfolding due_task
chosen now db id t fresh e = (
  select_first-find db.tasks.seq (claimable_task now db) sooner db.tasks.rows {x = (id, t)} fresh e,
  (select_first_sound (λ _ _. Unit {0}) (claimable_task now db) sooner db.tasks.rows {x = (id, t)}
      (every_row db.tasks.rows) e).1,
)
  where
    every_row : (l : List (ℕ × TaskRow)) → AllRows (λ _ _. Unit {0}) l
    every_row [] = tt
    every_row (x ∷ rest) = (tt, every_row rest)

-- Where task ids are unique, a claim that returns a task claims one that was scheduled, was due,
-- and is allowed by its group as the group stands then; the task leaves the schedule as it is
-- marked as processing.
pub claim_due_escalation-Claimed :
    (serde : EventSerde) (now : ℤ) (db : Db) (r : EscalationTaskRecord)
    → IsFresh db.tasks
    → (claim_due_escalation serde now db).0 ≡ ok (some r)
    → Claimed now db (claim_due_escalation serde now db).1 r
claim_due_escalation-Claimed serde now db r fresh h = elim (Option-cases (due_task now db)) [
  | inl e ↦ absurd (ground (arith, claim_none serde now db e))
  | inr ((id, t), e) ↦
      let (same_id, same_group, same_step, after) = claim_some serde now db id t r e h in
      let (g, found, is_due, waiting, ok_by_group) =
        claimable now db id t (chosen now db id t fresh e).1 in
      let stored : find r.id db.tasks.rows ≡ some t = rw same_id ((chosen now db id t fresh e).0) in
      record {
        task = t;
        group = g;
        stored = stored;
        scheduled = scheduled_status t.status is_due;
        due = waiting;
        group_stored = rw same_group found;
        allowed = ok_by_group;
        step = same_step;
        taken = rw (after, same_id) (started id now db t ((chosen now db id t fresh e).0) is_due);
      }
]

-- Whether the group is acknowledged.
abbrev pub is_acknowledged : List (ℕ × GroupRow) → ℕ → Bool
is_acknowledged groups id = elim (find id groups) [
  | none ↦ false
  | some g ↦ is_some g.acknowledged_at
]

-- The task is scheduled, stops on an acknowledgement, and its group has one.
abbrev pub is_overdue_stop : List (ℕ × GroupRow) → TaskRow → Bool
is_overdue_stop groups t =
    is_scheduled t.status && t.stop_on_ack && is_acknowledged groups t.alert_group_id

-- No task that an acknowledgement should have stopped is left in the schedule.
abbrev pub Quiet : List (ℕ × GroupRow) → List (ℕ × TaskRow) → Type 0
Quiet groups tasks = AllRows (λ _ t. is_overdue_stop groups t ≡ false) tasks

abbrev pub IsQuiet : Db → Type 0
IsQuiet db = Quiet db.groups.rows db.tasks.rows

-- An update of a task that keeps its group and does not schedule it.
pub Quiet-unscheduled :
    (groups : List (ℕ × GroupRow)) (p : ℕ → TaskRow → Bool) (f : TaskRow → TaskRow)
    (tasks : List (ℕ × TaskRow))
    → ((t : TaskRow) → is_scheduled (f t).status ≡ false)
    → Quiet groups tasks
    → Quiet groups (update_where p f tasks)
Quiet-unscheduled groups p f tasks off h =
    AllRows-update_where_into _ _ p f
      (λ i t q. elim (Bool-cases (p i t)) [ inl e ↦ rw e (ground (arith, off t)) | inr e ↦ rw e q ])
      tasks h

-- A change of groups that acknowledges none.
pub Quiet-groups :
    (groups groups' : List (ℕ × GroupRow)) (tasks : List (ℕ × TaskRow))
    → ((i : ℕ) → is_acknowledged groups' i ≡ true → is_acknowledged groups i ≡ true)
    → Quiet groups tasks
    → Quiet groups' tasks
Quiet-groups groups groups' tasks f h =
    AllRows-mono _ _
      (λ i t q. elim (Bool-cases (is_acknowledged groups' t.alert_group_id)) [
        | inl e ↦ ground (arith, f t.alert_group_id e, q)
        | inr e ↦ ground (arith, e)
      ])
      tasks h

module _ (now : ℤ) (group : ℕ) (policy : String) (step delay : ℕ)
    (stop_on_ack stop_on_resolve : Bool) (db : Db) where
  abbrev pub task : TaskRow
  task = new_task group policy step stop_on_ack stop_on_resolve (i64_add now (as_i64 delay)) now

  abbrev pub added_to : Option GroupRow → Db
  added_to none = db
  added_to (some g) = if allows stop_on_ack stop_on_resolve g then insert_task task db else db

  -- What scheduling does, on each of its branches.
  pub schedule_lem :
      (schedule now group policy step delay stop_on_ack stop_on_resolve db).1
      ≡ added_to (find group db.groups.rows)
  unfolding schedule group_allows_escalation
  schedule_lem = elim (Option-cases (find group db.groups.rows)) [
    | inl e ↦ ground arith
    | inr (g, e) ↦ elim (Bool-cases (allows stop_on_ack stop_on_resolve g)) [
      | inl p ↦ ground arith
      | inr p ↦ ground arith
    ]
  ]

  pub schedule-IsQuiet :
      IsQuiet db → IsQuiet (schedule now group policy step delay stop_on_ack stop_on_resolve db).1
  unfolding new_task Table.insert
  schedule-IsQuiet h = subst IsQuiet (sym schedule_lem) (added (find group db.groups.rows) refl)
    where
      added : (o : Option GroupRow) → find group db.groups.rows ≡ o → IsQuiet (added_to o)
      added none e = h
      added (some g) e = elim (Bool-cases (allows stop_on_ack stop_on_resolve g)) [
        | inl p ↦ rw p (ground (arith, e, p), h)
        | inr p ↦ rw p h
      ]
