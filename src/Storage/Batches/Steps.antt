-- ===== src/Storage/Batches/Steps.antt =====
-- storage.rs: the operations on events, deliveries and batches keep the totals of the batches.
use simple_alert_proxy.Prelude.{
  ℕ, ◌+◌, String, Bool, Option, none, List, [], ◌∷◌, ◌++◌, ◌≡◌, refl, sym, subst, arith, inl, inr,
  ◌⊎◌, Bool-cases, Option-cases,
}
use simple_alert_proxy.Prelude.Int.{ℤ}
use simple_alert_proxy.Table
use simple_alert_proxy.Table.{update_where, exists_where, at}
use simple_alert_proxy.Table.Laws.{
  Fresh-mono, Fresh-update_where, insert-IsFresh, AllRows-update_where_into,
}
use simple_alert_proxy.Alert.{AlertEvent, EventSerde}
use simple_alert_proxy.Routing.{Delivery}
use simple_alert_proxy.Storage.{
  Db, DeliveryRow, BatchRow, AuditActor, Result, err, Error, Result-cases,
}
use simple_alert_proxy.Storage.Groups.{insert_audit, store_event_with_team}
use simple_alert_proxy.Storage.Deliveries.Recovery.{recovered_one, recover_loop_step}
use simple_alert_proxy.Storage.Deliveries.{
  queue_delivery, new_delivery, request_summary, update_delivery, delivery_replay_record,
  replay_delivery_as, requeue, RecoveredDelivery, recover_loop,
}
use simple_alert_proxy.Storage.Batches.{NotificationBatchLimits, in_batch}
use simple_alert_proxy.Storage.Batches.Totals.{IsTotalled, IsWithinUnlessSingle, update-Totalled}
use simple_alert_proxy.Storage.Sending.{
  due_batch, batch_events, start_delivering, mark_delivering, claim_due_notification_batch,
}

pub IsTotalled-same :
    (before after : Db)
    → after.deliveries ≡ before.deliveries
    → after.batches ≡ before.batches
    → after.members ≡ before.members
    → IsTotalled before
    → IsTotalled after
IsTotalled-same before after d b m h = record {
  batches_fresh = rw b h.batches_fresh;
  deliveries_fresh = rw d h.deliveries_fresh;
  members_fresh = rw (d, m) h.members_fresh;
  owned = rw (b, m) h.owned;
  totals = rw (b, m) h.totals;
}

pub queue_delivery-IsTotalled :
    (serde : EventSerde) (now : ℤ) (id : ℕ) (delivery : Delivery) (db : Db)
    → IsTotalled db
    → IsTotalled (queue_delivery serde now id delivery db).1
unfolding queue_delivery
queue_delivery-IsTotalled serde now id delivery db h = record {
  batches_fresh = h.batches_fresh;
  deliveries_fresh =
      insert-IsFresh
        (new_delivery id delivery.receiver (serde.value_to_string (request_summary delivery)) now)
        db.deliveries h.deliveries_fresh;
  members_fresh =
      Fresh-mono db.deliveries.seq (db.deliveries.seq + 1) db.members (omega arith) h.members_fresh;
  owned = h.owned;
  totals = h.totals;
}

module _ (serde : EventSerde) (limits : NotificationBatchLimits) where
  -- The totals of the batches, and their limits.
  abbrev pub Keeps : Db → Type 0
  Keeps db = IsTotalled db × IsWithinUnlessSingle limits db

  pub delivery-Keeps :
      (id : ℕ) (f : DeliveryRow → DeliveryRow) (db : Db)
      → Keeps db
      → Keeps (update_delivery id f db)
  delivery-Keeps id f db k = (
    record {
      batches_fresh = k.0.batches_fresh;
      deliveries_fresh =
          Fresh-update_where db.deliveries.seq (at id) f db.deliveries.rows k.0.deliveries_fresh;
      members_fresh = k.0.members_fresh;
      owned = k.0.owned;
      totals = k.0.totals;
    },
    k.1,
  )

  pub batches-Keeps :
      (p : ℕ → BatchRow → Bool) (f : BatchRow → BatchRow) (q : ℕ → DeliveryRow → Bool)
      (g : DeliveryRow → DeliveryRow) (db : Db)
      → ((b : BatchRow)
          → ((f b).event_count ≡ b.event_count) × ((f b).payload_bytes ≡ b.payload_bytes))
      → Keeps db
      → Keeps (record db {
        batches = Table.with_rows db.batches (update_where p f db.batches.rows);
        deliveries = Table.with_rows db.deliveries (update_where q g db.deliveries.rows);
      })
  batches-Keeps p f q g db same k = (
    update-Totalled db.deliveries.seq p f q g db same k.0,
    AllRows-update_where_into _ _ p f (λ i b t. ground (arith, same b)) db.batches.rows k.1,
  )

  pub replay-Keeps :
      (now : ℤ) (id : ℕ) (actor : AuditActor) (db : Db)
      → Keeps db
      → Keeps (replay_delivery_as serde now id actor db).1
  unfolding replay_delivery_as insert_audit
  replay-Keeps now id actor db k = elim (Bool-cases (exists_where (at id) db.deliveries.rows)) [
    | inr e ↦ rw e k
    | inl e ↦ elim (Result-cases (delivery_replay_record serde db id)) [
      | inl (replay, q) ↦
          let changed =
            delivery-Keeps id (λ d. record (requeue now d) { last_error = none }) db k in
          rw (e, q)
            (
              IsTotalled-same
                  (update_delivery id (λ d. record (requeue now d) { last_error = none }) db) _ refl
                  refl refl changed.0,
              changed.1,
            )
      | inr (x, q) ↦ rw (e, q) k
    ]
  ]

  claim_states :
      (now : ℤ) (db : Db)
      → ((claim_due_notification_batch serde now db).1 ≡ db)
        ⊎ ((id : ℕ) × (n : ℕ) × ((claim_due_notification_batch serde now db).1
              ≡ start_delivering id n now db))
  unfolding claim_due_notification_batch
  claim_states now db = elim (Option-cases (due_batch now db)) [
    | inl e ↦ inl (ground arith)
    | inr ((id, b), e) ↦ elim (Result-cases (batch_events serde id db db.members)) [
      | inl (events, q) ↦ inr (id, b.attempt_count + 1, ground arith)
      | inr (x, q) ↦ inl (ground arith)
    ]
  ]

  pub claim-Keeps :
      (now : ℤ) (db : Db) → Keeps db → Keeps (claim_due_notification_batch serde now db).1
  claim-Keeps now db k = elim (claim_states now db) [
    | inl e ↦ subst Keeps (sym e) k
    | inr (id, n, e) ↦ subst Keeps (sym e) (
        batches-Keeps (at id) _ (in_batch db.members id) (mark_delivering n now) db
          (λ b. (refl, refl)) k)
  ]

  recover_stopped :
      (now : ℤ) (i : ℕ) (d : DeliveryRow) (rows : List (ℕ × DeliveryRow))
      (before : List RecoveredDelivery) (db : Db) {x : Error}
      → delivery_replay_record serde db i ≡ err x
      → (recover_loop serde now ((i, d) ∷ rows) before db).1 ≡ db
  unfolding recover_loop
  recover_stopped now i d rows before db q = ground arith

  pub recover-Keeps :
      (now : ℤ) (rows : List (ℕ × DeliveryRow)) (before : List RecoveredDelivery) (db : Db)
      → Keeps db
      → Keeps (recover_loop serde now rows before db).1
  unfolding recover_loop
  recover-Keeps now [] before db k = k
  recover-Keeps now ((i, d) ∷ rows) before db k =
      elim (Result-cases (delivery_replay_record serde db i)) [
        | inr (x, q) ↦ subst Keeps (sym (recover_stopped now i d rows before db q)) k
        | inl (replay, q) ↦
            subst (λ (r : Result (List RecoveredDelivery) × Db). Keeps r.1)
              (sym (recover_loop_step serde now i d rows before db replay q))
              (recover-Keeps now rows (before ++ recovered_one i d replay ∷ [])
                (update_delivery i (requeue now) db) (delivery-Keeps i (requeue now) db k))
      ]

  pub store-Keeps :
      (now : ℤ) (event : AlertEvent) (team : Option String) (db : Db)
      → Keeps db
      → Keeps (store_event_with_team serde now event team db).1
  unfolding store_event_with_team
  store-Keeps now event team db k =
      (IsTotalled-same db (store_event_with_team serde now event team db).1 refl refl refl k.0, k.1)
