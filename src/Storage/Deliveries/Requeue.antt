-- ===== src/Storage/Deliveries/Requeue.antt =====
-- Which deliveries a restart recovers, and what it makes of their rows.
use simple_alert_proxy.Prelude.{
  ℕ, ◌-◌, ◌≤◌, ◌<◌, Bool, true, false, Option, none, some, List, [], ◌∷◌, ◌++◌, if◌then◌else◌, ◌≡◌,
  refl, sym, ap, subst, ◌∙◌, arith, inl, inr, ◌||◌, ◌==◌, Bool-cases, Option-cases,
}
use simple_alert_proxy.Prelude.Int.{ℤ}
use simple_alert_proxy.Table.{find, update_where, at}
use simple_alert_proxy.Table.Laws.{IsFresh, Fresh, find-update_at, find-none_of_Fresh}
use simple_alert_proxy.Alert.{EventSerde}
use simple_alert_proxy.Storage.{
  Db, DeliveryRow, DeliveryStatus, MemberRow, Result, ok, Result-cases,
}
use simple_alert_proxy.Storage.Deliveries.{
  RecoveredDelivery, interrupted, recover_loop, recover_deliveries, delivery_replay_record,
  update_delivery, requeue,
}
use simple_alert_proxy.Storage.Deliveries.Recovery.{
  row_ids, listed, listed-append, is_recoverable, interrupted_kept, interrupted_left, recovered_one,
  recover_loop_step,
}

abbrev pub recovered_ids : List RecoveredDelivery → List ℕ
recovered_ids [] = []
recovered_ids (r ∷ rest) = r.id ∷ recovered_ids rest

ids-append :
    (rs : List RecoveredDelivery) (r : RecoveredDelivery) (rest : List ℕ)
    → recovered_ids (rs ++ r ∷ []) ++ rest ≡ recovered_ids rs ++ r.id ∷ rest
ids-append [] r rest = refl
ids-append (x ∷ rs) r rest = ap (◌∷◌ x.id) (ids-append rs r rest)

ids_end : (xs : List ℕ) → xs ++ [] ≡ xs
ids_end [] = refl
ids_end (x ∷ xs) = ap (◌∷◌ x) (ids_end xs)

-- The ids ascend, from above `low` and up to `high`.
abbrev pub Ascending : ℕ → List ℕ → ℕ → Type 0
Ascending low [] high = low ≤ high
Ascending low (i ∷ rest) high = (low < i) × Ascending i rest high

Ascending-append :
    (low : ℕ) (l : List (ℕ × DeliveryRow)) (high k : ℕ) (d : DeliveryRow) (top : ℕ)
    → Ascending low (row_ids l) high
    → high < k
    → k ≤ top
    → Ascending low (row_ids (l ++ (k, d) ∷ [])) top
Ascending-append low [] high k d top h lt le = (omega arith, le)
Ascending-append low ((i, x) ∷ l) high k d top h lt le =
    (h.0, Ascending-append i l high k d top h.1 lt le)

Ascending-mono :
    (low : ℕ) (l : List ℕ) (high top : ℕ) → Ascending low l high → high ≤ top → Ascending low l top
Ascending-mono low [] high top h le = omega arith
Ascending-mono low (i ∷ l) high top h le = (h.0, Ascending-mono i l high top h.1 le)

interrupted-Ascending :
    (members : List (ℕ × MemberRow)) (n : ℕ) (l : List (ℕ × DeliveryRow))
    → Fresh n l
    → Ascending 0 (row_ids (interrupted members l)) n
unfolding interrupted
interrupted-Ascending members n [] h = omega arith
interrupted-Ascending members n ((k, d) ∷ rest) h =
    let before = interrupted-Ascending members (k - 1) rest h.2 in
    elim (Bool-cases (is_recoverable members k d)) [
      | inl e ↦
          subst (λ l. Ascending 0 (row_ids l) n) (sym (interrupted_kept members k d rest e))
            (Ascending-append 0 (interrupted members rest) (k - 1) k d n before (omega (arith, h.0))
              h.1)
      | inr e ↦
          subst (λ l. Ascending 0 (row_ids l) n) (sym (interrupted_left members k d rest e))
            (Ascending-mono 0 (row_ids (interrupted members rest)) (k - 1) n before
              (omega (arith, h.1)))
    ]

-- Whether a row of an id is one to recover.
abbrev recoverable_at : List (ℕ × MemberRow) → ℕ → Option DeliveryRow → Bool
recoverable_at members j none = false
recoverable_at members j (some d) = is_recoverable members j d

listed-interrupted :
    (members : List (ℕ × MemberRow)) (n j : ℕ) (l : List (ℕ × DeliveryRow))
    → Fresh n l
    → listed j (row_ids (interrupted members l)) ≡ recoverable_at members j (find j l)
unfolding interrupted find
listed-interrupted members n j [] h = refl
listed-interrupted members n j ((k, d) ∷ rest) h =
    let ih = listed-interrupted members (k - 1) j rest h.2 in
    elim (Bool-cases (k == j)) [
      | inl q ↦
          let same : k ≡ j = ground arith in
          let gone = find-none_of_Fresh (k - 1) k rest h.2 (omega (arith, h.0)) in
          elim (Bool-cases (is_recoverable members k d)) [
            | inl e ↦
                ap (λ l. listed j (row_ids l)) (interrupted_kept members k d rest e)
                ∙ ground (arith, listed-append j k d (interrupted members rest), e, q, same)
            | inr e ↦
                ap (λ l. listed j (row_ids l)) (interrupted_left members k d rest e)
                ∙ ground (arith, ih, gone, e, q, same)
          ]
      | inr q ↦ elim (Bool-cases (is_recoverable members k d)) [
        | inl e ↦
            ap (λ l. listed j (row_ids l)) (interrupted_kept members k d rest e)
            ∙ ground (arith, listed-append j k d (interrupted members rest), ih, q)
        | inr e ↦
            ap (λ l. listed j (row_ids l)) (interrupted_left members k d rest e)
            ∙ ground (arith, ih, q)
      ]
    ]

recover_loop-ids :
    (serde : EventSerde) (now : ℤ) (rows : List (ℕ × DeliveryRow)) (before : List RecoveredDelivery)
    (db : Db) (rs : List RecoveredDelivery)
    → (recover_loop serde now rows before db).0 ≡ ok rs
    → recovered_ids rs ≡ recovered_ids before ++ row_ids rows
unfolding recover_loop
recover_loop-ids serde now [] before db rs e =
    let same : before ≡ rs = ground arith in
    subst (λ x. recovered_ids x ≡ recovered_ids before ++ []) same
      (sym (ids_end (recovered_ids before)))
recover_loop-ids serde now ((i, d) ∷ rows) before db rs e =
    elim (Result-cases (delivery_replay_record serde db i)) [
      | inr (x, q) ↦ absurd (ground arith)
      | inl (replay, q) ↦
          recover_loop-ids serde now rows (before ++ recovered_one i d replay ∷ [])
            (update_delivery i (requeue now) db) rs (ground arith)
          ∙ ids-append before (recovered_one i d replay) (row_ids rows)
    ]

-- The row of an id after a loop that requeues some ids.
abbrev requeued_if : ℤ → Bool → Option DeliveryRow → Option DeliveryRow
requeued_if now b none = none
requeued_if now b (some d) = some (if b then requeue now d else d)

requeued_twice :
    (now : ℤ) (first second : Bool) (o : Option DeliveryRow)
    → requeued_if now second
        (if first then elim o [ none ↦ none | some d ↦ some (requeue now d) ] else o)
      ≡ requeued_if now (first || second) o
requeued_twice now true second none = refl
requeued_twice now false second none = refl
requeued_twice now true true (some d) = refl
requeued_twice now true false (some d) = refl
requeued_twice now false second (some d) = refl

requeued-next :
    (now : ℤ) (i j : ℕ) (ids : List ℕ) (rows : List (ℕ × DeliveryRow))
    → requeued_if now (listed j ids) (find j (update_where (at i) (requeue now) rows))
      ≡ requeued_if now (listed j (i ∷ ids)) (find j rows)
requeued-next now i j ids rows =
    ap (requeued_if now (listed j ids)) (find-update_at i j (requeue now) rows)
    ∙ requeued_twice now (i == j) (listed j ids) (find j rows)

recover_loop-find :
    (serde : EventSerde) (now : ℤ) (rows : List (ℕ × DeliveryRow)) (before : List RecoveredDelivery)
    (db : Db) (rs : List RecoveredDelivery) (j : ℕ)
    → (recover_loop serde now rows before db).0 ≡ ok rs
    → find j (recover_loop serde now rows before db).1.deliveries.rows
      ≡ requeued_if now (listed j (row_ids rows)) (find j db.deliveries.rows)
unfolding recover_loop
recover_loop-find serde now [] before db rs j e = elim (Option-cases (find j db.deliveries.rows)) [
  | inl q ↦ rw q refl
  | inr (d, q) ↦ rw q refl
]
recover_loop-find serde now ((i, d) ∷ rows) before db rs j e =
    elim (Result-cases (delivery_replay_record serde db i)) [
      | inr (x, q) ↦ absurd (ground arith)
      | inl (replay, q) ↦
          let step = recover_loop_step serde now i d rows before db replay q in
          ap (λ (x : Result (List RecoveredDelivery) × Db). find j x.1.deliveries.rows) step
          ∙ recover_loop-find serde now rows (before ++ recovered_one i d replay ∷ [])
              (update_delivery i (requeue now) db) rs j (sym (ap (λ x. x.0) step) ∙ e)
          ∙ requeued-next now i j (row_ids rows) db.deliveries.rows
    ]

-- What a recovery at `now` leaves, and what it gives back. A delivery is interrupted here if it is
-- queued, delivering or retrying, and in no batch.
pub record Recovered (now : ℤ) (before after : Db) (rs : List RecoveredDelivery) : Type 0 where
  pub requeued :
      (j : ℕ) (d : DeliveryRow)
      → find j before.deliveries.rows ≡ some d
      → is_recoverable before.members j d ≡ true
      → (listed j (recovered_ids rs) ≡ true)
        × (d' : DeliveryRow) × (find j after.deliveries.rows ≡ some d')
        × (d'.status ≡ DeliveryStatus.queued)
        × (d'.next_retry_at ≡ some now)
        × (d'.attempt_count ≡ d.attempt_count)
  pub others :
      (j : ℕ) (d : DeliveryRow)
      → find j before.deliveries.rows ≡ some d
      → is_recoverable before.members j d ≡ false
      → (listed j (recovered_ids rs) ≡ false) × (find j after.deliveries.rows ≡ some d)
  pub unknown :
      (j : ℕ)
      → find j before.deliveries.rows ≡ none
      → (listed j (recovered_ids rs) ≡ false) × (find j after.deliveries.rows ≡ none)
  pub ascending : Ascending 0 (recovered_ids rs) before.deliveries.seq

-- Where the ids of the deliveries are unique, a recovery that succeeds sets each row that is queued,
-- delivering or retrying, and in no batch, to queued and due now with its attempts kept, and leaves
-- every other row as it is; it gives back a delivery for each row of the first kind and for no
-- other, in ascending order of their ids.
pub recover_deliveries-Recovered :
    (serde : EventSerde) (now : ℤ) (db : Db) (rs : List RecoveredDelivery)
    → IsFresh db.deliveries
    → (recover_deliveries serde now db).0 ≡ ok rs
    → Recovered now db (recover_deliveries serde now db).1 rs
unfolding recover_deliveries
recover_deliveries-Recovered serde now db rs fresh e = record {
  requeued = λ j d found waits. (
    answered j found ∙ waits,
    requeue now d,
    after j found ∙ ap (λ b. requeued_if now b (some d)) waits,
    refl,
    refl,
    refl,
  );
  others = λ j d found left.
      (answered j found ∙ left, after j found ∙ ap (λ b. requeued_if now b (some d)) left);
  unknown = λ j missing. (answered j missing, after j missing);
  ascending =
      subst (λ l. Ascending 0 l db.deliveries.seq) (sym ids)
        (interrupted-Ascending db.members db.deliveries.seq db.deliveries.rows fresh);
}
  where
    rows : List (ℕ × DeliveryRow)
    rows = interrupted db.members db.deliveries.rows

    ids : recovered_ids rs ≡ row_ids rows
    ids = recover_loop-ids serde now rows [] db rs e

    chosen :
        (j : ℕ) → listed j (row_ids rows) ≡ recoverable_at db.members j (find j db.deliveries.rows)
    chosen j = listed-interrupted db.members db.deliveries.seq j db.deliveries.rows fresh

    answered :
        (j : ℕ) {o : Option DeliveryRow}
        → find j db.deliveries.rows ≡ o
        → listed j (recovered_ids rs) ≡ recoverable_at db.members j o
    answered j f = ap (listed j) ids ∙ chosen j ∙ ap (recoverable_at db.members j) f

    after :
        (j : ℕ) {o : Option DeliveryRow}
        → find j db.deliveries.rows ≡ o
        → find j (recover_loop serde now rows [] db).1.deliveries.rows
          ≡ requeued_if now (recoverable_at db.members j o) o
    after j f =
        recover_loop-find serde now rows [] db rs j e
        ∙ ap (λ b. requeued_if now b (find j db.deliveries.rows)) (chosen j)
        ∙ ap (λ o. requeued_if now (recoverable_at db.members j o) o) f
