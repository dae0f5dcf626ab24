-- ===== src/Storage/Sending/Claims.antt =====
-- Which batch is claimed, and what the claim does to it.
use simple_alert_proxy.Prelude.{
  ℕ, ◌+◌, Bool, true, ◌&&◌, none, some, List, [], ◌∷◌, ◌≡◌, refl, sym, arith, Option-cases, inl,
  inr, subst, ==_refl,
}
use simple_alert_proxy.Prelude.Int.{ℤ, leb_ℤ, ◌≤ℤ◌}
use simple_alert_proxy.Table.{find}
use simple_alert_proxy.Table.Laws.{
  IsFresh, AllRows, find-update_at, select_first-find, select_first_sound, find-update_where_cases,
}
use simple_alert_proxy.Table.Order.{Leads, select_first-Leads}
use simple_alert_proxy.Alert.{EventSerde}
use simple_alert_proxy.Storage.{
  Db, DeliveryRow, BatchRow, BatchStatus, DeliveryStatus, ok, err, Error,
}
use simple_alert_proxy.Storage.Batches.{in_batch}
use simple_alert_proxy.Storage.Sending.{
  ClaimedNotificationBatch, is_claimable, mark_delivering, sooner, due_batch, start_delivering,
  claim_due_notification_batch,
}

-- The order of the claims: by due time, then by id.
abbrev pub NoLater : ℕ × BatchRow → ℕ × BatchRow → Type 0
NoLater x y = x.1.due_at ≤ℤ y.1.due_at

abbrev pub claimable_at : ℤ → ℕ → BatchRow → Bool
claimable_at now _ b = is_claimable b.status && leb_ℤ b.due_at now

pub due_batch-Leads :
    (now : ℤ) (db : Db) → Leads NoLater (claimable_at now) sooner (due_batch now db) db.batches.rows
unfolding due_batch
due_batch-Leads now db =
    select_first-Leads NoLater (claimable_at now) sooner (λ x. omega arith)
      (λ x y z h k. omega arith) (λ x y h. ground arith) (λ x y h. ground arith) db.batches.rows

-- What a successful claim says of the database before and after it.
pub record Claimed (now : ℤ) (before after : Db) (c : ClaimedNotificationBatch) : Type 0 where
  pub row : BatchRow
  pub stored : find c.id before.batches.rows ≡ some row
  pub due : claimable_at now c.id row ≡ true
  pub first :
      AllRows (λ i b. claimable_at now i b ≡ true → row.due_at ≤ℤ b.due_at) before.batches.rows
  pub attempt : c.attempt ≡ row.attempt_count + 1
  pub receiver : c.delivery.receiver ≡ row.receiver
  pub taken :
      find c.id after.batches.rows
      ≡ some (record row {
        status = BatchStatus.delivering;
        attempt_count = c.attempt;
        last_error = none;
        updated_at = now;
      })
  pub members :
      (j : ℕ) (d : DeliveryRow)
      → find j before.deliveries.rows ≡ some d
      → in_batch before.members c.id j d ≡ true
      → (d' : DeliveryRow) × (find j after.deliveries.rows ≡ some d')
        × (d'.status ≡ DeliveryStatus.delivering)
        × (d'.attempt_count ≡ c.attempt)

claim_some :
    (serde : EventSerde) (now : ℤ) (db : Db) (id : ℕ) (b : BatchRow) (c : ClaimedNotificationBatch)
    → due_batch now db ≡ some (id, b)
    → (claim_due_notification_batch serde now db).0 ≡ ok (some c)
    → (c.id ≡ id)
      × (c.attempt ≡ b.attempt_count + 1)
      × (c.delivery.receiver ≡ b.receiver)
      × ((claim_due_notification_batch serde now db).1
          ≡ start_delivering id (b.attempt_count + 1) now db)
unfolding claim_due_notification_batch
claim_some serde now db id b c e h = ground arith

claim_none :
    (serde : EventSerde) (now : ℤ) (db : Db) (c : ClaimedNotificationBatch)
    → due_batch now db ≡ none
    → (claim_due_notification_batch serde now db).0 ≡ ok (some c)
    → ⊥
unfolding claim_due_notification_batch
claim_none serde now db c e h = ground arith

start_delivering-Claimed :
    (now : ℤ) (db : Db) (id : ℕ) (b : BatchRow) (c : ClaimedNotificationBatch)
    → IsFresh db.batches
    → due_batch now db ≡ some (id, b)
    → c.id ≡ id
    → c.attempt ≡ b.attempt_count + 1
    → c.delivery.receiver ≡ b.receiver
    → Claimed now db (start_delivering id (b.attempt_count + 1) now db) c
unfolding due_batch
start_delivering-Claimed now db id b c fresh e i a r =
    let found : find id db.batches.rows ≡ some b =
      select_first-find db.batches.seq (claimable_at now) sooner db.batches.rows fresh e in
    record {
      row = b;
      stored = rw i found;
      due =
          (select_first_sound (λ _ _. Unit {0}) (claimable_at now) sooner db.batches.rows
            (everything db.batches.rows) e).1;
      first =
          subst (λ o. Leads NoLater (claimable_at now) sooner o db.batches.rows) e
            (due_batch-Leads now db);
      attempt = a;
      receiver = r;
      taken = rw (i, a) (rw (find-update_at id id _ db.batches.rows, ==_refl id, found));
      members = λ j d q m. (
        mark_delivering (b.attempt_count + 1) now d,
        rw (
          find-update_where_cases (in_batch db.members id)
              (mark_delivering (b.attempt_count + 1) now) j db.deliveries.rows,
          q,
          ← i,
          m,
        ),
        refl,
        sym a,
      );
    }
  where
    everything : (rows : List (ℕ × BatchRow)) → AllRows (λ _ _. Unit {0}) rows
    everything [] = tt
    everything (x ∷ rest) = (tt, everything rest)

-- Where batch ids are unique, a claim that returns a batch returns one that was pending or
-- waiting for a retry, and due, with no such batch due before it. It counts one more attempt, and
-- marks that batch and each delivery in it as delivering.
pub claim_due_notification_batch-Claimed :
    (serde : EventSerde) (now : ℤ) (db : Db) (c : ClaimedNotificationBatch)
    → IsFresh db.batches
    → (claim_due_notification_batch serde now db).0 ≡ ok (some c)
    → Claimed now db (claim_due_notification_batch serde now db).1 c
claim_due_notification_batch-Claimed serde now db c fresh h =
    elim (Option-cases (due_batch now db)) [
      | inl e ↦ absurd (claim_none serde now db c e h)
      | inr ((id, b), e) ↦
          let (i, a, r, after) = claim_some serde now db id b c e h in
          subst (λ x. Claimed now db x c) (sym after)
            (start_delivering-Claimed now db id b c fresh e i a r)
    ]

-- A claim that fails leaves the database as it was.
claim_error_unchanged :
    (serde : EventSerde) (now : ℤ) (db : Db) {e : Error}
    → (claim_due_notification_batch serde now db).0 ≡ err e
    → (claim_due_notification_batch serde now db).1 ≡ db
unfolding claim_due_notification_batch
claim_error_unchanged serde now db h = ground arith
