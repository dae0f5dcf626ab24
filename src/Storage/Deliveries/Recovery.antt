-- ===== src/Storage/Deliveries/Recovery.antt =====
-- That a restart leaves no delivery interrupted.
use simple_alert_proxy.Prelude.{
  ℕ, Bool, true, false, ◌&&◌, not, List, [], ◌∷◌, ◌++◌, ◌≡◌, refl, sym, ap, subst, ◌∙◌, arith, inl,
  inr, any, ◌||◌, ◌==◌, ==_refl, Bool-cases,
}
use simple_alert_proxy.Prelude.Int.{ℤ}
use simple_alert_proxy.Table.{exists_where, update_where, at}
use simple_alert_proxy.Table.Laws.{AllRows, AllRows-mono, AllRows-update_where_into}
use simple_alert_proxy.Alert.{EventSerde}
use simple_alert_proxy.Storage.{
  Db, DeliveryRow, DeliveryStatus, MemberRow, Result, ok, Result-cases,
}
use simple_alert_proxy.Storage.Deliveries.{
  RecoveredDelivery, DeliveryReplayRecord, interrupted, recover_loop, recover_deliveries,
  delivery_replay_record, update_delivery, requeue, next_attempt, is_open,
}

abbrev pub row_ids : List (ℕ × DeliveryRow) → List ℕ
row_ids [] = []
row_ids ((i, d) ∷ rest) = i ∷ row_ids rest

abbrev pub is_queued : DeliveryStatus → Bool
is_queued DeliveryStatus.queued = true
is_queued _ = false

-- A delivery in no batch whose sending was interrupted: it is delivering or retrying.
abbrev pub is_interrupted : List (ℕ × MemberRow) → ℕ → DeliveryRow → Bool
is_interrupted members i d =
    is_open d.status && not (is_queued d.status) && not (exists_where (at i) members)

abbrev pub listed : ℕ → List ℕ → Bool
listed i ids = any (λ j. j == i) ids

-- Every interrupted row is among the ids that are still to be recovered.
abbrev Listed : List (ℕ × MemberRow) → List ℕ → List (ℕ × DeliveryRow) → Type 0
Listed members ids rows =
    AllRows (λ i d. (is_interrupted members i d && not (listed i ids)) ≡ false) rows

pub listed-append :
    (i k : ℕ) (d : DeliveryRow) (l : List (ℕ × DeliveryRow))
    → listed i (row_ids (l ++ (k, d) ∷ [])) ≡ (listed i (row_ids l) || k == i)
listed-append i k d [] = ground arith
listed-append i k d ((j, x) ∷ l) = ground (arith, listed-append i k d l)

abbrev pub is_recoverable : List (ℕ × MemberRow) → ℕ → DeliveryRow → Bool
is_recoverable members k d = is_open d.status && not (exists_where (at k) members)

pub interrupted_kept :
    (members : List (ℕ × MemberRow)) (k : ℕ) (d : DeliveryRow) (rest : List (ℕ × DeliveryRow))
    → is_recoverable members k d ≡ true
    → interrupted members ((k, d) ∷ rest) ≡ interrupted members rest ++ (k, d) ∷ []
unfolding interrupted
interrupted_kept members k d rest e = rw e refl

pub interrupted_left :
    (members : List (ℕ × MemberRow)) (k : ℕ) (d : DeliveryRow) (rest : List (ℕ × DeliveryRow))
    → is_recoverable members k d ≡ false
    → interrupted members ((k, d) ∷ rest) ≡ interrupted members rest
unfolding interrupted
interrupted_left members k d rest e = rw e refl

interrupted-Listed :
    (members : List (ℕ × MemberRow)) (l : List (ℕ × DeliveryRow))
    → Listed members (row_ids (interrupted members l)) l
interrupted-Listed members [] = tt
interrupted-Listed members ((k, d) ∷ rest) = elim (Bool-cases (is_recoverable members k d)) [
  | inl e ↦
      subst (λ l. Listed members (row_ids l) ((k, d) ∷ rest))
        (sym (interrupted_kept members k d rest e))
        (
          ground (arith, listed-append k k d (interrupted members rest), ==_refl k),
          AllRows-mono _ _
              (λ i x q. ground (arith, listed-append i k d (interrupted members rest), q)) rest
              (interrupted-Listed members rest),
        )
  | inr e ↦
      subst (λ l. Listed members (row_ids l) ((k, d) ∷ rest))
        (sym (interrupted_left members k d rest e)) (ground arith, interrupted-Listed members rest)
]

requeue-Listed :
    (members : List (ℕ × MemberRow)) (now : ℤ) (k : ℕ) (ids : List ℕ) (l : List (ℕ × DeliveryRow))
    → Listed members (k ∷ ids) l
    → Listed members ids (update_where (at k) (requeue now) l)
requeue-Listed members now k ids l h =
    AllRows-update_where_into _ _ (at k) (requeue now)
      (λ i d q. elim (Bool-cases (i == k)) [
        | inl e ↦ rw e refl
        | inr e ↦ rw e (let other : (k == i) ≡ false = ground arith in ground (arith, other))
      ])
      l h

abbrev pub recovered_one : ℕ → DeliveryRow → DeliveryReplayRecord → RecoveredDelivery
recovered_one i d replay = record {
  id = i;
  event = replay.event;
  delivery = replay.delivery;
  next_attempt = next_attempt d.status d.attempt_count;
}

pub recover_loop_step :
    (serde : EventSerde) (now : ℤ) (i : ℕ) (d : DeliveryRow) (rows : List (ℕ × DeliveryRow))
    (before : List RecoveredDelivery) (db : Db) (replay : DeliveryReplayRecord)
    → delivery_replay_record serde db i ≡ ok replay
    → recover_loop serde now ((i, d) ∷ rows) before db
      ≡ recover_loop serde now rows
          (before ++ recovered_one i d replay ∷ [])
          (update_delivery i (requeue now) db)
unfolding recover_loop
recover_loop_step serde now i d rows before db replay q = ground arith

recover_loop-Listed :
    (serde : EventSerde) (now : ℤ) (members : List (ℕ × MemberRow)) (rows : List (ℕ × DeliveryRow))
    (before : List RecoveredDelivery) (db : Db) (rs : List RecoveredDelivery)
    → (recover_loop serde now rows before db).0 ≡ ok rs
    → Listed members (row_ids rows) db.deliveries.rows
    → Listed members [] (recover_loop serde now rows before db).1.deliveries.rows
unfolding recover_loop
recover_loop-Listed serde now members [] before db rs e h = h
recover_loop-Listed serde now members ((i, d) ∷ rows) before db rs e h =
    elim (Result-cases (delivery_replay_record serde db i)) [
      | inr (x, q) ↦ absurd (ground arith)
      | inl (replay, q) ↦
          let step = recover_loop_step serde now i d rows before db replay q in
          subst
            (λ (x : Result (List RecoveredDelivery) × Db). Listed members [] x.1.deliveries.rows)
            (sym step)
            (recover_loop-Listed serde now members rows (before ++ recovered_one i d replay ∷ [])
              (update_delivery i (requeue now) db) rs (sym (ap (λ x. x.0) step) ∙ e)
              (requeue-Listed members now i (row_ids rows) db.deliveries.rows h))
    ]

-- After a recovery that succeeds no delivery that is in no batch is left delivering or retrying.
pub recover_deliveries_none_interrupted :
    (serde : EventSerde) (now : ℤ) (db : Db) (rs : List RecoveredDelivery)
    → (recover_deliveries serde now db).0 ≡ ok rs
    → AllRows
        (λ i d. is_interrupted db.members i d ≡ false)
        (recover_deliveries serde now db).1.deliveries.rows
unfolding recover_deliveries
recover_deliveries_none_interrupted serde now db rs e =
    AllRows-mono _ _ (λ i d q. ground (arith, q)) _
      (recover_loop-Listed serde now db.members (interrupted db.members db.deliveries.rows) [] db rs
        e (interrupted-Listed db.members db.deliveries.rows))
