-- ===== src/Storage/Batches/Totals.antt =====
-- The totals of a batch over its members, and the limits of a batch, as predicates on the database.
use simple_alert_proxy.Prelude.{
  ℕ, ◌+◌, ◌≤◌, String, Bool, false, List, [], ◌∷◌, ◌==◌, ◌≡◌, refl, sym, arith, inr, ◌⊎◌,
}
use simple_alert_proxy.Prelude.Int.{ℤ}
use simple_alert_proxy.Table
use simple_alert_proxy.Table.{Table, find, update_where, count_where, sum_where, at}
use simple_alert_proxy.Table.Laws.{
  IsFresh, Fresh, AllRows, AllRows-mono, Fresh-AllRows, AllRows-update_where_into,
  Fresh-update_where, insert-IsFresh, count-zero_of_AllRows,
}
use simple_alert_proxy.Routing.{Delivery}
use simple_alert_proxy.Storage.{Db, DeliveryRow, BatchRow, MemberRow}
use simple_alert_proxy.Storage.Batches.{
  NotificationBatchLimits, new_batch, insert_notification_batch, close_batch, in_batch,
}

-- WHERE batch_id = b
abbrev pub member_of : ℕ → ℕ → MemberRow → Bool
member_of b _ m = m.batch_id == b

abbrev pub bytes_of : MemberRow → ℕ
bytes_of m = m.event_bytes

abbrev pub Totals : List (ℕ × MemberRow) → ℕ → BatchRow → Type 0
Totals members id b =
    (b.event_count ≡ count_where (member_of id) members)
    × (b.payload_bytes ≡ sum_where (member_of id) bytes_of members)

-- The members belong to deliveries up to `n`, one for each, and to batches of the table, and every
-- batch has the totals of its members.
pub record Totalled (n : ℕ) (db : Db) : Type 0 where
  pub batches_fresh : IsFresh db.batches
  pub deliveries_fresh : IsFresh db.deliveries
  pub members_fresh : Fresh n db.members
  pub owned : AllRows (λ _ m. m.batch_id ≤ db.batches.seq) db.members
  pub totals : AllRows (Totals db.members) db.batches.rows

abbrev pub IsTotalled : Db → Type 0
IsTotalled db = Totalled db.deliveries.seq db

-- Every batch has at most `max_events` members, and at most `max_payload_bytes` bytes unless it has
-- no more than one member: an event above that limit has a batch of its own.
abbrev pub WithinUnlessSingle : NotificationBatchLimits → ℕ → BatchRow → Type 0
WithinUnlessSingle limits _ b =
    (b.event_count ≤ limits.max_events)
    × ((b.payload_bytes ≤ limits.max_payload_bytes) ⊎ (b.event_count ≤ 1))

abbrev pub IsWithinUnlessSingle : NotificationBatchLimits → Db → Type 0
IsWithinUnlessSingle limits db = AllRows (WithinUnlessSingle limits) db.batches.rows

-- An UPDATE of batches that keeps their totals, with any UPDATE of deliveries.
pub update-Totalled :
    (n : ℕ) (p : ℕ → BatchRow → Bool) (f : BatchRow → BatchRow) (q : ℕ → DeliveryRow → Bool)
    (g : DeliveryRow → DeliveryRow) (db : Db)
    → ((b : BatchRow)
        → ((f b).event_count ≡ b.event_count) × ((f b).payload_bytes ≡ b.payload_bytes))
    → Totalled n db
    → Totalled n (record db {
      batches = Table.with_rows db.batches (update_where p f db.batches.rows);
      deliveries = Table.with_rows db.deliveries (update_where q g db.deliveries.rows);
    })
update-Totalled n p f q g db same h = record {
  batches_fresh = Fresh-update_where db.batches.seq p f db.batches.rows h.batches_fresh;
  deliveries_fresh = Fresh-update_where db.deliveries.seq q g db.deliveries.rows h.deliveries_fresh;
  members_fresh = h.members_fresh;
  owned = h.owned;
  totals =
      AllRows-update_where_into _ _ p f (λ i b t. ground (arith, same b)) db.batches.rows h.totals;
}

sum-zero :
    (b : ℕ) (l : List (ℕ × MemberRow))
    → AllRows (λ i m. member_of b i m ≡ false) l
    → sum_where (member_of b) bytes_of l ≡ 0
unfolding sum_where
sum-zero b [] h = refl
sum-zero b ((i, m) ∷ rest) h = ground (arith, sum-zero b rest h.1)

not-member_of :
    (db : Db)
    → AllRows (λ _ m. m.batch_id ≤ db.batches.seq) db.members
    → AllRows (λ i m. member_of (db.batches.seq + 1) i m ≡ false) db.members
not-member_of db o = AllRows-mono _ _ (λ i m h. ground arith) db.members o

pub insert_notification_batch-Totalled :
    (n : ℕ) (key : String) (delivery : Delivery) (now : ℤ) (wait : ℕ) (db : Db)
    → Totalled n db
    → Totalled n (insert_notification_batch key delivery now wait db).1
unfolding insert_notification_batch
insert_notification_batch-Totalled n key delivery now wait db h = record {
  batches_fresh = insert-IsFresh (new_batch key delivery now wait) db.batches h.batches_fresh;
  deliveries_fresh = h.deliveries_fresh;
  members_fresh = h.members_fresh;
  owned = AllRows-mono _ _ (λ i m l. omega arith) db.members h.owned;
  totals = (
    (
      sym (count-zero_of_AllRows _ db.members (not-member_of db h.owned)),
      sym (sum-zero (db.batches.seq + 1) db.members (not-member_of db h.owned)),
    ),
    h.totals,
  );
}

pub close_batch-Totalled :
    (n id : ℕ) (now : ℤ) (db : Db) → Totalled n db → Totalled n (close_batch id now db)
unfolding close_batch
close_batch-Totalled n id now db h =
    update-Totalled n (at id) _ (in_batch db.members id) _ db (λ b. (refl, refl)) h

-- The batch that takes a delivery has room for it, and the totals hold after the choice.
pub record Chosen (n bytes : ℕ) (limits : NotificationBatchLimits) (c : ℕ × Db) : Type 0 where
  pub totalled : Totalled n c.1
  pub known : c.0 ≤ c.1.batches.seq
  pub room :
      AllRows
        (λ i b.
          i ≡ c.0
          → (b.event_count + 1 ≤ limits.max_events)
            × ((b.payload_bytes + bytes ≤ limits.max_payload_bytes) ⊎ (b.event_count + 1 ≤ 1)))
        c.1.batches.rows
  pub within : IsWithinUnlessSingle limits c.1

pub insert-Chosen :
    (n : ℕ) (key : String) (delivery : Delivery) (now : ℤ) (bytes : ℕ)
    (limits : NotificationBatchLimits) (db : Db)
    → 1 ≤ limits.max_events
    → Totalled n db
    → IsWithinUnlessSingle limits db
    → Chosen n bytes limits (insert_notification_batch key delivery now limits.group_wait_millis db)
unfolding insert_notification_batch
insert-Chosen n key delivery now bytes limits db one h w = record {
  totalled = insert_notification_batch-Totalled n key delivery now limits.group_wait_millis db h;
  known = omega arith;
  room = (
    λ _. (omega arith, inr (omega arith)),
    AllRows-mono _ _ (λ i b k e. absurd (omega (arith, k.1, e))) db.batches.rows
        (Fresh-AllRows db.batches.seq db.batches.rows h.batches_fresh),
  );
  within = ((omega arith, inr (omega arith)), w);
}
