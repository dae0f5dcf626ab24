-- ===== src/Storage/Groups/Escalations.antt =====
-- What acknowledging and resolving a group do to its scheduled escalations.
use simple_alert_proxy.Prelude.{
  ℕ, ◌+◌, Bool, true, false, ◌&&◌, none, some, List, [], ◌∷◌, ◌==◌, if◌then◌else◌, ◌≡◌, refl, arith,
  Bool-cases, inl, inr, ap, ◌∙◌, String, ==_refl,
}
use simple_alert_proxy.Prelude.Int.{ℤ}
use simple_alert_proxy.Table.{find, update_where}
use simple_alert_proxy.Table.Laws.{AllRows, find-update_at, find-update_where_cases}
use simple_alert_proxy.Storage.{
  Db, GroupRow, TaskRow, AuditRow, GroupStatus, TaskStatus, AuditActor, ok,
}
use simple_alert_proxy.Storage.Groups.{
  acknowledge_group_as, resolve_group_as, group_exists, is_scheduled, cancel_task,
}

-- A row that an UPDATE took out of its WHERE clause no longer satisfies it.
pub AllRows-updated_out :
    {A : Type 0} (p : ℕ → A → Bool) (g : A → A)
    → ((i : ℕ) (a : A) → p i (g a) ≡ false)
    → (l : List (ℕ × A)) → AllRows (λ i a. p i a ≡ false) (update_where p g l)
unfolding update_where
AllRows-updated_out p g out [] = tt
AllRows-updated_out p g out ((i, a) ∷ rest) = elim (Bool-cases (p i a)) [
  | inl e ↦ rw e (out i a, AllRows-updated_out p g out rest)
  | inr e ↦ rw e (e, AllRows-updated_out p g out rest)
]

-- What holds of a database after an operator's action on group `id`: `stops` says which tasks the
-- action cancels, `change` what it does to the group.
pub record ActedOn (id : ℕ) (stops : TaskRow → Bool) (change : GroupRow → GroupRow)
    (action : String) (before after : Db) : Type 0 where
  pub stopped :
      AllRows
        (λ _ t. (t.alert_group_id == id && is_scheduled t.status && stops t) ≡ false)
        after.tasks.rows
  pub canceled :
      (j : ℕ) (t : TaskRow)
      → find j before.tasks.rows ≡ some t
      → t.alert_group_id ≡ id
      → t.status ≡ TaskStatus.scheduled
      → stops t ≡ true
      → (t' : TaskRow) × (find j after.tasks.rows ≡ some t') × (t'.status ≡ TaskStatus.canceled)
  pub others :
      (j : ℕ) (t : TaskRow)
      → find j before.tasks.rows ≡ some t
      → (t.alert_group_id == id && is_scheduled t.status && stops t) ≡ false
      → find j after.tasks.rows ≡ some t
  pub group :
      (j : ℕ)
      → find j after.groups.rows ≡ (
          if id == j
          then elim (find j before.groups.rows) [ none ↦ none | some g ↦ some (change g) ]
          else find j before.groups.rows)
  pub audited :
      (row : AuditRow) × (after.audit.rows ≡ (before.audit.seq + 1, row) ∷ before.audit.rows)
      × (row.action ≡ action)
      × (row.alert_group_id ≡ some id)

-- The row of a task that an UPDATE to `canceled` selects.
canceled_row :
    (now : ℤ) (id j : ℕ) (stops : TaskRow → Bool) (t : TaskRow) (l : List (ℕ × TaskRow))
    → find j l ≡ some t
    → t.alert_group_id ≡ id
    → t.status ≡ TaskStatus.scheduled
    → stops t ≡ true
    → (t' : TaskRow) × (find j (
          update_where
            (λ _ x. x.alert_group_id == id && is_scheduled x.status && stops x)
            (cancel_task now)
            l)
        ≡ some t')
      × (t'.status ≡ TaskStatus.canceled)
canceled_row now id j stops t l found in_group waiting stop =
    let same : (t.alert_group_id == id) ≡ true = rw in_group (==_refl id) in
    let scheduled : is_scheduled t.status ≡ true = rw waiting refl in
    let selected : (t.alert_group_id == id && is_scheduled t.status && stops t) ≡ true =
      ground (arith, same, scheduled, stop) in
    (
      cancel_task now t,
      find-update_where_cases (λ _ x. x.alert_group_id == id && is_scheduled x.status && stops x)
            (cancel_task now) j l
          ∙ rw found (ap some (rw selected refl)),
      refl,
    )

-- Acknowledging a group that exists marks as canceled each of its scheduled escalations that
-- stop on an acknowledgement, leaves none of them scheduled and changes no other task, marks that
-- group alone, and adds one audit entry for it.
pub acknowledge_group_as-ActedOn :
    (now : ℤ) (id : ℕ) (actor : AuditActor) (db : Db)
    → group_exists db id ≡ true
    → ((acknowledge_group_as now id actor db).0 ≡ ok tt)
      × ActedOn id
          (λ t. t.stop_on_ack)
          (λ g. record g { acknowledged_at = some now; updated_at = now })
          "acknowledge"
          db
          (acknowledge_group_as now id actor db).1
unfolding acknowledge_group_as
acknowledge_group_as-ActedOn now id actor db e = rw e (
  refl,
  record {
    stopped = AllRows-updated_out _ (cancel_task now) (λ i t. ground arith) db.tasks.rows;
    canceled = λ j t found in_group waiting stop.
        canceled_row now id j (λ x. x.stop_on_ack) t db.tasks.rows found in_group waiting stop;
    others = λ j t found out.
        rw (find-update_where_cases _ (cancel_task now) j db.tasks.rows, found) (rw out);
    group = λ j. find-update_at id j _ db.groups.rows;
    audited = (_, refl, refl, refl);
  },
)

-- Resolving a group that exists marks as canceled each of its scheduled escalations that stop on a
-- resolution, leaves none of them scheduled and changes no other task, marks that group alone, and
-- adds one audit entry for it.
pub resolve_group_as-ActedOn :
    (now : ℤ) (id : ℕ) (actor : AuditActor) (db : Db)
    → group_exists db id ≡ true
    → ((resolve_group_as now id actor db).0 ≡ ok tt)
      × ActedOn id
          (λ t. t.stop_on_resolve)
          (λ g. record g { status = GroupStatus.resolved; updated_at = now })
          "resolve"
          db
          (resolve_group_as now id actor db).1
unfolding resolve_group_as
resolve_group_as-ActedOn now id actor db e = rw e (
  refl,
  record {
    stopped = AllRows-updated_out _ (cancel_task now) (λ i t. ground arith) db.tasks.rows;
    canceled = λ j t found in_group waiting stop.
        canceled_row now id j (λ x. x.stop_on_resolve) t db.tasks.rows found in_group waiting stop;
    others = λ j t found out.
        rw (find-update_where_cases _ (cancel_task now) j db.tasks.rows, found) (rw out);
    group = λ j. find-update_at id j _ db.groups.rows;
    audited = (_, refl, refl, refl);
  },
)
