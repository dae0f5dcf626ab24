-- ===== src/Storage/Retention.antt =====
-- storage.rs: the retention job. The TEMP tables are the tests on ids that they are read by.
pub mod Events
pub mod Batches
pub mod Calm
use simple_alert_proxy.Prelude.{
  ℕ, ◌+◌, ◌*◌, String, Bool, true, false, ◌&&◌, not, Option, none, some, List, [], ◌∷◌, ◌==◌, leb,
  if◌then◌else◌, unwrap_or,
}
use simple_alert_proxy.Prelude.Int.{
  ℤ, pos, leb_ℤ, ltb_ℤ, i64_max, u64_max, i64_try_from, i64_saturating_sub,
}
use simple_alert_proxy.Table.{
  with_rows, update_with, delete_where, count_where, sum_where, exists_where,
}
use simple_alert_proxy.Storage.{
  Db, EventRow, GroupRow, DeliveryRow, BatchRow, MemberRow, AuditRow, TaskRow, AdvisoryRow,
}
use simple_alert_proxy.Storage.Groups.Counts.{in_group}
use simple_alert_proxy.Storage.Batches.Totals.{member_of, bytes_of}

-- WHERE created_at < cutoff
abbrev pub is_old : ℤ → ℕ → EventRow → Bool
is_old cutoff _ e = ltb_ℤ e.created_at cutoff

-- k IN (SELECT id FROM retention_old_events)
unfoldable pub old_event : ℤ → Db → ℕ → Bool
old_event cutoff db k = exists_where (λ i e. i == k && is_old cutoff i e) db.events.rows

-- k IN (SELECT id FROM retention_old_deliveries)
unfoldable pub old_delivery : ℤ → Db → ℕ → Bool
unfolding old_event
old_delivery cutoff db k =
    exists_where (λ i d. i == k && old_event cutoff db d.alert_event_id) db.deliveries.rows

-- b IN (SELECT id FROM retention_affected_batches)
unfoldable pub affected_batch : ℤ → Db → ℕ → Bool
unfolding old_delivery
affected_batch cutoff db b =
    exists_where (λ i m. member_of b i m && old_delivery cutoff db i) db.members

-- The statements on the deliveries and their batches.
abbrev pub in_old_delivery : ℤ → Db → Option ℕ → Bool
in_old_delivery cutoff db none = false
in_old_delivery cutoff db (some k) = old_delivery cutoff db k

abbrev pub has_member : ℕ → List (ℕ × MemberRow) → Bool
has_member b members = exists_where (member_of b) members

abbrev pub recount_batch : List (ℕ × MemberRow) → ℕ → BatchRow → BatchRow
recount_batch members id b = record b {
  event_count = count_where (member_of id) members;
  payload_bytes = sum_where (member_of id) bytes_of members;
}

unfoldable pub prune_deliveries : ℤ → Db → Db
unfolding old_event old_delivery affected_batch
prune_deliveries cutoff db =
    let members = delete_where (λ i _. old_delivery cutoff db i) db.members in
    let counted =
      update_with (λ i _. affected_batch cutoff db i) (recount_batch members) db.batches.rows in
    record db {
      audit =
          with_rows db.audit
            (delete_where (λ _ a. in_old_delivery cutoff db a.delivery_record_id) db.audit.rows);
      members = members;
      batches =
          with_rows db.batches (
            delete_where (λ i _. affected_batch cutoff db i && not (has_member i members)) counted);
      deliveries =
          with_rows db.deliveries
            (delete_where (λ i _. old_delivery cutoff db i) db.deliveries.rows);
    }

-- g IN (SELECT alert_group_id FROM retention_old_events)
unfoldable pub touched_group : ℤ → Db → ℕ → Bool
touched_group cutoff db g = exists_where (λ i e. in_group g i e && is_old cutoff i e) db.events.rows

abbrev pub has_event : ℕ → List (ℕ × EventRow) → Bool
has_event g events = exists_where (in_group g) events

-- g IN (SELECT id FROM retention_orphan_groups)
unfoldable pub orphan_group : ℤ → Db → List (ℕ × EventRow) → ℕ → Bool
unfolding touched_group
orphan_group cutoff db remaining g = touched_group cutoff db g && not (has_event g remaining)

abbrev pub in_orphan : ℤ → Db → List (ℕ × EventRow) → Option ℕ → Bool
in_orphan cutoff db remaining none = false
in_orphan cutoff db remaining (some g) = orphan_group cutoff db remaining g

-- SELECT MIN(created_at) and MAX(created_at) FROM alert_events WHERE alert_group_id = g
abbrev pub smaller : ℤ → Option ℤ → ℤ
smaller a none = a
smaller a (some b) = if leb_ℤ a b then a else b

abbrev pub larger : ℤ → Option ℤ → ℤ
larger a none = a
larger a (some b) = if leb_ℤ a b then b else a

unfoldable pub min_created : ℕ → List (ℕ × EventRow) → Option ℤ
min_created g [] = none
min_created g ((i, e) ∷ rest) =
    let others = min_created g rest in
    if in_group g i e then some (smaller e.created_at others) else others

unfoldable pub max_created : ℕ → List (ℕ × EventRow) → Option ℤ
max_created g [] = none
max_created g ((i, e) ∷ rest) =
    let others = max_created g rest in
    if in_group g i e then some (larger e.created_at others) else others

-- The groups that are updated have an event left, so that MIN and MAX are not NULL.
unfoldable pub recount_group : List (ℕ × EventRow) → ℕ → GroupRow → GroupRow
unfolding min_created max_created
recount_group events id g = record g {
  event_count = count_where (in_group id) events;
  first_event_at = unwrap_or (min_created id events) g.first_event_at;
  last_event_at = unwrap_or (max_created id events) g.last_event_at;
  updated_at = larger g.updated_at (max_created id events);
}

-- The statements on the events and their groups; `db` is the database before the job.
unfoldable pub prune_events : ℤ → Db → Db → Db
unfolding old_event touched_group orphan_group recount_group
prune_events cutoff db pruned =
    let remaining = delete_where (λ i _. old_event cutoff db i) pruned.events.rows in
    let orphan = orphan_group cutoff db remaining in
    let kept = delete_where (λ i _. orphan i) pruned.groups.rows in
    record pruned {
      events = with_rows pruned.events remaining;
      advisories = with_rows pruned.advisories (
          delete_where (λ _ a. in_orphan cutoff db remaining a.alert_group_id)
            pruned.advisories.rows);
      tasks =
          with_rows pruned.tasks (delete_where (λ _ t. orphan t.alert_group_id) pruned.tasks.rows);
      audit =
          with_rows pruned.audit (
            delete_where (λ _ a. in_orphan cutoff db remaining a.alert_group_id) pruned.audit.rows);
      groups = with_rows pruned.groups (
          update_with (λ i _. touched_group cutoff db i && not (orphan i)) (recount_group remaining)
            kept);
    }

-- `prune_alerts_before`: how many events are deleted, and the database after.
unfoldable pub prune_alerts_before : ℤ → Db → ℕ × Db
unfolding prune_deliveries prune_events
prune_alerts_before cutoff db = (
  count_where (is_old cutoff) db.events.rows,
  prune_events cutoff db (prune_deliveries cutoff db),
)

unfoldable pub retention_millis : ℕ → ℤ
retention_millis days =
    if leb (days * 86400000) u64_max
    then unwrap_or (i64_try_from (days * 86400000)) (pos i64_max)
    else pos i64_max

unfoldable pub prune_alerts_older_than_days : ℤ → ℕ → Db → ℕ × Db
unfolding prune_alerts_before retention_millis
prune_alerts_older_than_days now days =
    prune_alerts_before (i64_saturating_sub now (retention_millis days))
