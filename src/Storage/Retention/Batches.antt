-- ===== src/Storage/Retention/Batches.antt =====
-- storage.rs, retention: what is left of the deliveries and their batches.
use simple_alert_proxy.Prelude.{
  ℕ, ◌≤◌, Bool, true, false, ◌&&◌, not, List, if◌then◌else◌, ◌≡◌, refl, arith, Bool-cases, inl, inr,
}
use simple_alert_proxy.Prelude.Int.{ℤ}
use simple_alert_proxy.Table.{update_with, delete_where}
use simple_alert_proxy.Table.Laws.{
  AllRows, AllRows-mono, AllRows-and, AllRows-delete_where, Fresh-delete_where,
}
use simple_alert_proxy.Table.Deletes.{
  Fresh-update_with, AllRows-update_with, count-delete_where, sum-delete_where,
  count-delete_where_le, sum-delete_where_le,
}
use simple_alert_proxy.Storage.{Db, BatchRow, MemberRow}
use simple_alert_proxy.Storage.Batches.{NotificationBatchLimits}
use simple_alert_proxy.Storage.Batches.Totals.{
  member_of, bytes_of, Totals, IsTotalled, WithinUnlessSingle, IsWithinUnlessSingle,
}
use simple_alert_proxy.Storage.Retention.{
  old_delivery, affected_batch, has_member, recount_batch, prune_deliveries, prune_events,
  prune_alerts_before,
}
use simple_alert_proxy.Storage.Retention.Events.{exists-none}

module _ (cutoff : ℤ) (db : Db) where
  abbrev left : List (ℕ × MemberRow)
  left = delete_where (λ i _. old_delivery cutoff db i) db.members

  abbrev affected : ℕ → BatchRow → Bool
  affected i _ = affected_batch cutoff db i

  -- The members of a batch that is not affected are kept.
  unaffected :
      (b : ℕ)
      → affected_batch cutoff db b ≡ false
      → AllRows (λ i m. member_of b i m ≡ true → old_delivery cutoff db i ≡ false) db.members
  unfolding affected_batch
  unaffected b h =
      AllRows-mono _ _ (λ i m e q. ground (arith, e, q)) db.members
        (exists-none (λ i m. member_of b i m && old_delivery cutoff db i) db.members h)

  recounted :
      (i : ℕ) (b : BatchRow)
      → Totals db.members i b
      → Totals left i (if affected_batch cutoff db i then recount_batch left i b else b)
  recounted i b h = elim (Bool-cases (affected_batch cutoff db i)) [
    | inl e ↦ rw e (refl, refl)
    | inr e ↦
        let same = unaffected i e in
        let count =
          count-delete_where (member_of i) (λ i _. old_delivery cutoff db i) db.members same in
        let sum =
          sum-delete_where (member_of i) (λ i _. old_delivery cutoff db i) bytes_of db.members
            same in
        rw e (omega (arith, h.0, count), omega (arith, h.1, sum))
  ]

  recount-WithinUnlessSingle :
      (limits : NotificationBatchLimits) (i : ℕ) (b : BatchRow)
      → Totals db.members i b × WithinUnlessSingle limits i b
      → WithinUnlessSingle limits i
          (if affected_batch cutoff db i then recount_batch left i b else b)
  recount-WithinUnlessSingle limits i b h = elim (Bool-cases (affected_batch cutoff db i)) [
    | inl e ↦
        let count =
          count-delete_where_le (member_of i) (λ i _. old_delivery cutoff db i) db.members in
        let sum =
          sum-delete_where_le (member_of i) (λ i _. old_delivery cutoff db i) bytes_of db.members in
        rw e (ground (arith, h, count, sum))
    | inr e ↦ rw e h.1
  ]

  -- The retention job keeps every batch's event count and payload size equal to those of its
  -- members, and keeps, for any limits, that every batch has no more than `max_events` members, and
  -- no more than `max_payload_bytes` bytes or one member.
  pub prune_alerts_before-IsTotalled :
      (limits : NotificationBatchLimits)
      → IsTotalled db
      → IsWithinUnlessSingle limits db
      → IsTotalled (prune_alerts_before cutoff db).1
        × IsWithinUnlessSingle limits (prune_alerts_before cutoff db).1
  unfolding prune_alerts_before prune_events prune_deliveries
  prune_alerts_before-IsTotalled limits h w =
      let empty : ℕ → BatchRow → Bool =
        λ i _. affected_batch cutoff db i && not (has_member i left) in
      let counted = update_with affected (recount_batch left) db.batches.rows in
      (
        record {
          batches_fresh = Fresh-delete_where db.batches.seq empty counted (
              Fresh-update_with db.batches.seq affected (recount_batch left) db.batches.rows
                h.batches_fresh);
          deliveries_fresh =
              Fresh-delete_where db.deliveries.seq (λ i _. old_delivery cutoff db i)
                db.deliveries.rows h.deliveries_fresh;
          members_fresh =
              Fresh-delete_where db.deliveries.seq (λ i _. old_delivery cutoff db i) db.members
                h.members_fresh;
          owned =
              AllRows-delete_where (λ _ m. m.batch_id ≤ db.batches.seq)
                (λ i _. old_delivery cutoff db i) db.members h.owned;
          totals = AllRows-delete_where (Totals left) empty counted (
              AllRows-update_with (Totals db.members) (Totals left) affected (recount_batch left)
                recounted db.batches.rows h.totals);
        },
        AllRows-delete_where (WithinUnlessSingle limits) empty counted (
            AllRows-update_with (λ i b. Totals db.members i b × WithinUnlessSingle limits i b)
              (WithinUnlessSingle limits) affected (recount_batch left)
              (recount-WithinUnlessSingle limits) db.batches.rows
              (AllRows-and (Totals db.members) (WithinUnlessSingle limits) db.batches.rows h.totals
                w)),
      )
