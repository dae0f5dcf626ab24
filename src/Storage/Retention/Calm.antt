-- ===== src/Storage/Retention/Calm.antt =====
-- storage.rs, retention: the escalations of acknowledged groups.
use simple_alert_proxy.Prelude.{
  ℕ, Bool, true, false, ◌&&◌, not, List, ◌≡◌, arith, Option-cases, Bool-cases, inl, inr,
}
use simple_alert_proxy.Prelude.Int.{ℤ}
use simple_alert_proxy.Table.{find, update_with, delete_where}
use simple_alert_proxy.Table.Laws.{Fresh, AllRows-delete_where, Fresh-delete_where}
use simple_alert_proxy.Table.Deletes.{Fresh-update_with, find-delete_where, find-update_with}
use simple_alert_proxy.Storage.{Db, EventRow, GroupRow, TaskRow}
use simple_alert_proxy.Storage.Escalation.Stops.{is_acknowledged, is_overdue_stop, Quiet-groups}
use simple_alert_proxy.Storage.Escalation.Tasks.{IsCalm}
use simple_alert_proxy.Storage.Retention.{
  old_event, touched_group, orphan_group, recount_group, prune_deliveries, prune_events,
  prune_alerts_before,
}

-- A group that is left acknowledged was it before: groups are recounted or deleted, and no more.
recount-acknowledged :
    (n j : ℕ) (events : List (ℕ × EventRow)) (changed orphan : ℕ → GroupRow → Bool)
    (groups : List (ℕ × GroupRow))
    → Fresh n groups
    → is_acknowledged (update_with changed (recount_group events) (delete_where orphan groups)) j
      ≡ true
    → is_acknowledged groups j ≡ true
unfolding recount_group
recount-acknowledged n j events changed orphan groups fresh h =
    let kept = find-delete_where n j orphan groups fresh in
    let after = find-update_with changed (recount_group events) j (delete_where orphan groups) in
    elim (Option-cases (find j groups)) [
      | inl e ↦ absurd (ground (arith, e, kept, after))
      | inr (g, e) ↦ elim (Bool-cases (orphan j g)) [
        | inl q ↦ absurd (ground (arith, e, q, kept, after))
        | inr q ↦ ground (arith, e, q, kept, after)
      ]
    ]

module _ (cutoff : ℤ) (db : Db) where
  -- The retention job keeps the invariant of the escalations.
  pub prune-IsCalm : IsCalm db → IsCalm (prune_alerts_before cutoff db).1
  unfolding prune_alerts_before prune_events prune_deliveries
  prune-IsCalm h =
      let remaining = delete_where (λ i _. old_event cutoff db i) db.events.rows in
      let orphan : ℕ → GroupRow → Bool = λ i _. orphan_group cutoff db remaining i in
      let kept = delete_where orphan db.groups.rows in
      let changed : ℕ → GroupRow → Bool =
        λ i _. touched_group cutoff db i && not (orphan_group cutoff db remaining i) in
      let of_orphan : ℕ → TaskRow → Bool =
        λ _ t. orphan_group cutoff db remaining t.alert_group_id in
      record {
        groups =
            Fresh-update_with db.groups.seq changed (recount_group remaining) kept
              (Fresh-delete_where db.groups.seq orphan db.groups.rows h.groups);
        quiet =
            Quiet-groups db.groups.rows _ (delete_where of_orphan db.tasks.rows)
              (λ j.
                recount-acknowledged db.groups.seq j remaining changed orphan db.groups.rows
                  h.groups)
              (AllRows-delete_where (λ _ t. is_overdue_stop db.groups.rows t ≡ false) of_orphan
                db.tasks.rows h.quiet);
      }
