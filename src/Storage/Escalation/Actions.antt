-- ===== src/Storage/Escalation/Actions.antt =====
-- storage.rs, events and lifecycle actions: the escalations of acknowledged groups.
use simple_alert_proxy.Prelude.{
  ℕ, ◌+◌, String, Bool, true, false, ◌&&◌, Option, none, some, List, ◌∷◌, ◌==◌, if◌then◌else◌,
  is_some, ◌≡◌, refl, sym, arith, Option-cases, Bool-cases, inl, inr, subst, ap, ◌∙◌,
}
use simple_alert_proxy.Prelude.Int.{ℤ}
use simple_alert_proxy.Table
use simple_alert_proxy.Table.{Table, find, update_where, at}
use simple_alert_proxy.Table.Laws.{
  IsFresh, AllRows-update_where_into, find-update_at, insert-IsFresh, Fresh-update_where,
}
use simple_alert_proxy.Alert.{AlertEvent, EventSerde}
use simple_alert_proxy.Storage.{Db, GroupRow, GroupStatus, TaskRow, AuditActor}
use simple_alert_proxy.Storage.Groups.{
  is_scheduled, acknowledge_group_as, resolve_group_as, silence_group_as, group_exists,
  update_group, cancel_task, store_event_with_team, upsert_alert_group, touch_group, new_group,
  find_group, owner_team_id, cancel_escalations_stopped_by_ack,
  cancel_escalations_stopped_by_resolve,
}
use simple_alert_proxy.Storage.Escalation.{}
use simple_alert_proxy.Storage.Escalation.Stops.{
  is_acknowledged, is_overdue_stop, Quiet, Quiet-unscheduled, Quiet-groups,
}
use simple_alert_proxy.Storage.Escalation.Tasks.{IsCalm, audit-IsCalm}

-- An update of one group that keeps its acknowledgement.
update-acknowledged :
    (id : ℕ) (f : GroupRow → GroupRow) (groups : List (ℕ × GroupRow))
    → ((g : GroupRow) → is_some (f g).acknowledged_at ≡ true → is_some g.acknowledged_at ≡ true)
    → (j : ℕ) → is_acknowledged (update_where (at id) f groups) j ≡ true
    → is_acknowledged groups j ≡ true
update-acknowledged id f groups keeps j h = elim (Option-cases (find j groups)) [
  | inl e ↦ absurd (ground (arith, find-update_at id j f groups, e))
  | inr (g, e) ↦ ground (arith, find-update_at id j f groups, e, keeps g)
]

update-IsCalm :
    (id : ℕ) (f : GroupRow → GroupRow) (db : Db)
    → ((g : GroupRow) → is_some (f g).acknowledged_at ≡ true → is_some g.acknowledged_at ≡ true)
    → IsCalm db
    → IsCalm (update_group id f db)
update-IsCalm id f db keeps h = record {
  groups = Fresh-update_where db.groups.seq (at id) f db.groups.rows h.groups;
  quiet =
      Quiet-groups db.groups.rows _ db.tasks.rows (update-acknowledged id f db.groups.rows keeps)
        h.quiet;
}

-- The update of an acknowledgement, with the tasks that it cancels.
acknowledge-Quiet :
    (id : ℕ) (now : ℤ) (f : GroupRow → GroupRow) (db : Db)
    → IsCalm db
    → IsCalm (cancel_escalations_stopped_by_ack id now (update_group id f db))
unfolding cancel_escalations_stopped_by_ack
acknowledge-Quiet id now f db h = record {
  groups = Fresh-update_where db.groups.seq (at id) f db.groups.rows h.groups;
  quiet =
      AllRows-update_where_into _ _ _ (cancel_task now) (λ i t q. stopped t q) db.tasks.rows
        h.quiet;
}
  where
    acknowledged_row : Option GroupRow → Bool
    acknowledged_row o = elim o [ none ↦ false | some g ↦ is_some g.acknowledged_at ]

    acknowledgement_elsewhere :
        (j : ℕ)
        → (j == id) ≡ false
        → is_acknowledged (update_where (at id) f db.groups.rows) j
          ≡ is_acknowledged db.groups.rows j
    acknowledgement_elsewhere j ne =
        let other : (id == j) ≡ false = ground arith in
        ap acknowledged_row (find-update_at id j f db.groups.rows ∙ rw other refl)

    stopped :
        (t : TaskRow)
        → is_overdue_stop db.groups.rows t ≡ false
        → is_overdue_stop (update_where (at id) f db.groups.rows) (
            if t.alert_group_id == id && is_scheduled t.status && t.stop_on_ack
            then cancel_task now t
            else t)
          ≡ false
    stopped t q =
        elim (Bool-cases (t.alert_group_id == id && is_scheduled t.status && t.stop_on_ack)) [
          | inl e ↦ rw e refl
          | inr e ↦ rw e (elim (Bool-cases (t.alert_group_id == id)) [
            | inl w ↦ ground arith
            | inr w ↦ ground (arith, acknowledgement_elsewhere t.alert_group_id w)
          ])
        ]

pub acknowledge-IsCalm :
    (now : ℤ) (id : ℕ) (actor : AuditActor) (db : Db)
    → IsCalm db
    → IsCalm (acknowledge_group_as now id actor db).1
unfolding acknowledge_group_as
acknowledge-IsCalm now id actor db h = elim (Bool-cases (group_exists db id)) [
  | inl e ↦
      rw e (
        audit-IsCalm (some id) none actor "acknowledge" none now _
          (acknowledge-Quiet id now _ db h))
  | inr e ↦ rw e h
]

pub resolve-IsCalm :
    (now : ℤ) (id : ℕ) (actor : AuditActor) (db : Db)
    → IsCalm db
    → IsCalm (resolve_group_as now id actor db).1
unfolding resolve_group_as cancel_escalations_stopped_by_resolve
resolve-IsCalm now id actor db h = elim (Bool-cases (group_exists db id)) [
  | inl e ↦ rw e (
      let u =
        update-IsCalm id (λ g. record g { status = GroupStatus.resolved; updated_at = now }) db
          (λ g k. k) h in
      audit-IsCalm (some id) none actor "resolve" none now _ (record {
        groups = u.groups;
        quiet = Quiet-unscheduled _ _ _ db.tasks.rows (λ t. refl) u.quiet;
      }))
  | inr e ↦ rw e h
]

pub silence-IsCalm :
    (now : ℤ) (id : ℕ) (actor : AuditActor) (db : Db)
    → IsCalm db
    → IsCalm (silence_group_as now id actor db).1
unfolding silence_group_as
silence-IsCalm now id actor db h = elim (Bool-cases (group_exists db id)) [
  | inl e ↦
      rw e
        (audit-IsCalm (some id) none actor "silence" _ now _ (update-IsCalm id _ db (λ g k. k) h))
  | inr e ↦ rw e h
]

-- A row under the id that follows all others, without an acknowledgement.
new-acknowledged :
    (n : ℕ) (g : GroupRow) (groups : List (ℕ × GroupRow)) (j : ℕ)
    → g.acknowledged_at ≡ none
    → is_acknowledged ((n, g) ∷ groups) j ≡ true
    → is_acknowledged groups j ≡ true
unfolding find
new-acknowledged n g groups j free h = elim (Bool-cases (n == j)) [
  | inl e ↦ absurd (ground (arith, e, free))
  | inr e ↦ ground (arith, e)
]

new_group-free :
    (x : AlertEvent) (team : Option ℕ) (t : ℤ) → (new_group x team t).acknowledged_at ≡ none
unfolding new_group
new_group-free x team t = refl

touch_group-acknowledged :
    (x : AlertEvent) (team : Option ℕ) (t : ℤ) (g : GroupRow)
    → is_some (touch_group x team t g).acknowledged_at ≡ true
    → is_some g.acknowledged_at ≡ true
unfolding touch_group
touch_group-acknowledged x team t g k = ground arith

-- The invariant, of the tables it is about.
abbrev Calm : Table GroupRow → List (ℕ × TaskRow) → Type 0
Calm groups tasks = IsFresh groups × Quiet groups.rows tasks

upserted_new :
    (event : AlertEvent) (team_id : Option ℕ) (now : ℤ) (groups : Table GroupRow)
    → find_group event.group_namespace event.fingerprint groups.rows ≡ none
    → upsert_alert_group event team_id now groups
      ≡ (groups.seq + 1, Table.insert (new_group event team_id now) groups)
unfolding upsert_alert_group
upserted_new event team_id now groups e = ground arith

upserted_known :
    (event : AlertEvent) (team_id : Option ℕ) (now : ℤ) (groups : Table GroupRow) (id : ℕ)
    (g : GroupRow)
    → find_group event.group_namespace event.fingerprint groups.rows ≡ some (id, g)
    → upsert_alert_group event team_id now groups ≡ (
      id,
      Table.with_rows groups (update_where (at id) (touch_group event team_id now) groups.rows),
    )
unfolding upsert_alert_group
upserted_known event team_id now groups id g e = ground arith

upsert-Calm :
    (event : AlertEvent) (team_id : Option ℕ) (now : ℤ) (groups : Table GroupRow)
    (tasks : List (ℕ × TaskRow))
    → Calm groups tasks
    → Calm (upsert_alert_group event team_id now groups).1 tasks
unfolding Table.insert
upsert-Calm event team_id now groups tasks h =
    elim (Option-cases (find_group event.group_namespace event.fingerprint groups.rows)) [
      | inl e ↦
          subst (λ (u : ℕ × Table GroupRow). Calm u.1 tasks)
            (sym (upserted_new event team_id now groups e))
            (
              insert-IsFresh (new_group event team_id now) groups h.0,
              Quiet-groups groups.rows _ tasks
                  (λ j.
                    new-acknowledged (groups.seq + 1) (new_group event team_id now) groups.rows j
                      (new_group-free event team_id now))
                  h.1,
            )
      | inr ((id, g), e) ↦
          subst (λ (u : ℕ × Table GroupRow). Calm u.1 tasks)
            (sym (upserted_known event team_id now groups id g e))
            (
              Fresh-update_where groups.seq (at id) (touch_group event team_id now) groups.rows h.0,
              Quiet-groups groups.rows _ tasks
                  (update-acknowledged id (touch_group event team_id now) groups.rows
                    (touch_group-acknowledged event team_id now))
                  h.1,
            )
    ]

pub store-IsCalm :
    (serde : EventSerde) (now : ℤ) (event : AlertEvent) (owner_team : Option String) (db : Db)
    → IsCalm db
    → IsCalm (store_event_with_team serde now event owner_team db).1
unfolding store_event_with_team
store-IsCalm serde now event owner_team db h =
    let c =
      upsert-Calm event (owner_team_id db owner_team) now db.groups db.tasks.rows
        (h.groups, h.quiet) in
    record { groups = c.0; quiet = c.1 }
