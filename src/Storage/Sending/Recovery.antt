-- ===== src/Storage/Sending/Recovery.antt =====
-- What a restart makes of the batches that were not sent.
use simple_alert_proxy.Prelude.{
  false, ℕ, true, none, some, List, [], ◌∷◌, ◌≡◌, ◌≢◌, refl, arith, Option-cases, inl, inr, ◌⊎◌,
  subst,
}
use simple_alert_proxy.Prelude.Int.{ℤ, leb_ℤ}
use simple_alert_proxy.Table.{find}
use simple_alert_proxy.Table.Laws.{
  AllRows, AllRows-update_where_into, find-update_where_cases, find-AllRows,
}
use simple_alert_proxy.Table.Order.{Leads}
use simple_alert_proxy.Alert.{EventSerde}
use simple_alert_proxy.Storage.{Db, BatchRow, BatchStatus, ok, Result-cases}
use simple_alert_proxy.Storage.Sending.{
  recover_notification_batches, is_unsent, sooner, due_batch, batch_events,
  claim_due_notification_batch,
}
use simple_alert_proxy.Storage.Sending.Claims.{NoLater, claimable_at, due_batch-Leads}

-- After a recovery no batch is marked as delivering.
recover_notification_batches_none_delivering :
    (now : ℤ) (db : Db)
    → AllRows
        (λ _ b. b.status ≢ BatchStatus.delivering)
        (recover_notification_batches now db).1.batches.rows
unfolding recover_notification_batches
recover_notification_batches_none_delivering now db =
    AllRows-update_where_into (λ _ _. Unit {0}) _ _ _ (λ i b _ q. ground arith) db.batches.rows
      (everything db.batches.rows)
  where
    everything : (rows : List (ℕ × BatchRow)) → AllRows (λ _ _. Unit {0}) rows
    everything [] = tt
    everything (x ∷ rest) = (tt, everything rest)

recovered_pending :
    (now : ℤ) (db : Db) (id : ℕ) (b : BatchRow)
    → find id db.batches.rows ≡ some b
    → is_unsent b.status ≡ true
    → find id (recover_notification_batches now db).1.batches.rows
      ≡ some (record b { status = BatchStatus.pending; due_at = now; updated_at = now })
unfolding recover_notification_batches
recovered_pending now db id b found unsent =
    rw (find-update_where_cases _ _ id db.batches.rows, found) (rw unsent)

-- Where a batch was pending or delivering at a restart, a claim on what the recovery leaves, at the
-- time of the recovery or later, gives a batch or fails: it does not answer that there is none to
-- send.
pub claim_due_notification_batch-recover_notification_batches :
    (serde : EventSerde) (now later : ℤ) (db : Db) (id : ℕ) (b : BatchRow)
    → find id db.batches.rows ≡ some b
    → (b.status ≡ BatchStatus.pending) ⊎ (b.status ≡ BatchStatus.delivering)
    → leb_ℤ now later ≡ true
    → (claim_due_notification_batch serde later (recover_notification_batches now db).1).0 ≢ ok none
unfolding due_batch claim_due_notification_batch
claim_due_notification_batch-recover_notification_batches serde now later db id b found waits time
      h =
    let unsent : is_unsent b.status ≡ true = elim waits [ inl e ↦ rw e refl | inr e ↦ rw e refl ] in
    let after = (recover_notification_batches now db).1 in
    elim (Option-cases (due_batch later after)) [
      | inl e ↦
          let idle : AllRows (λ i x. claimable_at later i x ≡ false) after.batches.rows =
            subst (λ o. Leads NoLater (claimable_at later) sooner o after.batches.rows) e
              (due_batch-Leads later after) in
          absurd (
            ground (
              arith,
              find-AllRows (λ i x. claimable_at later i x ≡ false) id after.batches.rows idle
                  (recovered_pending now db id b found unsent),
              time,
            ))
      | inr ((k, x), e) ↦ elim (Result-cases (batch_events serde k after after.members)) [
        | inl (events, q) ↦ absurd (ground arith)
        | inr (x, q) ↦ absurd (ground arith)
      ]
    ]
