-- ===== src/Worker/Outcome.antt =====
-- How a delivery ends.
use simple_alert_proxy.Prelude.{
  ℕ, zero, suc, ◌+◌, ◌-◌, ◌*◌, ◌≤◌, ◌<◌, true, false, ◌||◌, none, some, min, max, leb, ◌≡◌, ◌⊎◌,
  ◌↔◌, ◌≢◌, subst, refl, sym, arith, Option-cases, Bool-cases, inl, inr, ==_refl, String,
}
use simple_alert_proxy.Prelude.Int.{as_i64, i64_add}
use simple_alert_proxy.Table.{find, update_where, at}
use simple_alert_proxy.Table.Laws.{find-update_at}
use simple_alert_proxy.Storage.{Db, DeliveryRow, DeliveryStatus}
use simple_alert_proxy.Storage.Deliveries.{
  mark_attempt, mark_succeeded, mark_retrying, mark_dead_letter,
}
use simple_alert_proxy.Worker.{
  DeliveryConfig, DeliveryFailure, World, Round, returned, retrying, sent, slept, stopped,
  attempt_once, attempts, first_backoff, run_from, rejected, redacted_delivery_error,
}

-- How the row of a delivery stands after its worker has returned.
pub record Ended (world : World) (max_attempts : ℕ) (d : DeliveryRow) : Type 0 where
  pub closed : (d.next_retry_at ≡ none) × (d.attempt_count ≤ max_attempts)
  pub verdict :
      ((d.status ≡ DeliveryStatus.succeeded) × (world.answer d.attempt_count ≡ none))
      ⊎ ((d.status ≡ DeliveryStatus.dead_letter)
          × ((f : DeliveryFailure) × (world.answer d.attempt_count ≡ some f)
              × (d.last_error ≡ some f.message)
              × ((f.permanent ≡ true) ⊎ (d.attempt_count ≡ max_attempts))))

abbrev pub EndedIn : World → ℕ → ℕ → Db → Type 0
EndedIn world max_attempts id db =
    (d : DeliveryRow) × (find id db.deliveries.rows ≡ some d) × Ended world max_attempts d

module _ (config : DeliveryConfig) (world : World) (id : ℕ) where
  -- One round: it returns with the row ended, or goes on, below the last attempt, with the row kept.
  abbrev AfterRound : ℕ → Round → Type 0
  AfterRound attempt (returned db) = EndedIn world config.max_attempts id db
  AfterRound attempt (retrying db) =
      (attempt < config.max_attempts) × ((d : DeliveryRow) × (find id db.deliveries.rows ≡ some d))

  module _ (attempt backoff : ℕ) (db : Db) where
    marked : Db
    marked = mark_attempt (world.started attempt) id attempt db

    once_won :
        world.answer attempt ≡ none
        → attempt_once config world id attempt backoff db
          ≡ returned (mark_succeeded (world.ended attempt) id "delivered" marked)
    unfolding attempt_once marked
    once_won e = ground arith

    once_lost :
        (f : DeliveryFailure)
        → world.answer attempt ≡ some f
        → f.permanent || leb config.max_attempts attempt ≡ true
        → attempt_once config world id attempt backoff db
          ≡ returned (mark_dead_letter (world.ended attempt) id f.message marked)
    unfolding attempt_once marked
    once_lost f e t = ground arith

    once_again :
        (f : DeliveryFailure)
        → world.answer attempt ≡ some f
        → f.permanent || leb config.max_attempts attempt ≡ false
        → attempt_once config world id attempt backoff db
          ≡ retrying (
              mark_retrying
                (world.ended attempt)
                id
                (i64_add (world.read attempt) (as_i64 backoff))
                f.message
                marked)
    unfolding attempt_once marked
    once_again f e t = ground arith

    -- Two UPDATEs of one row.
    find-update_twice :
        (g h : DeliveryRow → DeliveryRow) (d : DeliveryRow)
        → find id db.deliveries.rows ≡ some d
        → find id (update_where (at id) h (update_where (at id) g db.deliveries.rows))
          ≡ some (h (g d))
    find-update_twice g h d e =
        rw
          (
            find-update_at id id h (update_where (at id) g db.deliveries.rows),
            find-update_at id id g db.deliveries.rows,
          )
          (rw (==_refl id, e))

    attempt_once-AfterRound :
        (d : DeliveryRow)
        → find id db.deliveries.rows ≡ some d
        → attempt ≤ config.max_attempts
        → AfterRound attempt (attempt_once config world id attempt backoff db)
    unfolding marked mark_attempt mark_succeeded mark_retrying mark_dead_letter
    attempt_once-AfterRound d e le = elim (Option-cases (world.answer attempt)) [
      | inl won ↦
          subst (AfterRound attempt) (sym (once_won won)) (
            _,
            find-update_twice _ _ d e,
            record { closed = (refl, le); verdict = inl (refl, won) },
          )
      | inr (f, lost) ↦ elim (Bool-cases (f.permanent || leb config.max_attempts attempt)) [
        | inl t ↦ subst (AfterRound attempt) (sym (once_lost f lost t)) (
          _,
          find-update_twice _ _ d e,
          record { closed = (refl, le); verdict = inr (refl, (f, lost, refl, ground arith)) },
        )
        | inr t ↦
            subst (AfterRound attempt) (sym (once_again f lost t))
              (ground arith, (_, find-update_twice _ _ d e))
      ]
    ]

  attempts-EndedIn :
      (rounds attempt backoff : ℕ) (db : Db) (d : DeliveryRow)
      → find id db.deliveries.rows ≡ some d
      → config.max_attempts < rounds + attempt
      → attempt ≤ config.max_attempts
      → EndedIn world config.max_attempts id (attempts config world id rounds attempt backoff db).db
  unfolding attempts
  attempts-EndedIn zero attempt backoff db d e h le = absurd (omega arith)
  attempts-EndedIn (suc rounds) attempt backoff db d e h le =
      round (attempt_once config world id attempt backoff db)
        (attempt_once-AfterRound attempt backoff db d e le)
        (λ b db' d' e' lt.
          attempts-EndedIn rounds (attempt + 1) b db' d' e' (omega arith) (omega arith))
    where
      next : ℕ
      next = min (backoff * 2) config.max_backoff_millis

      round :
          (s : Round)
          → AfterRound attempt s
          → ((b : ℕ) (db' : Db) (d' : DeliveryRow)
              → find id db'.deliveries.rows ≡ some d'
              → attempt < config.max_attempts
              → EndedIn world config.max_attempts id
                  (attempts config world id rounds (attempt + 1) b db').db)
          → EndedIn world config.max_attempts id
              (sent attempt (elim s [
                | returned db' ↦ stopped db'
                | retrying db' ↦
                    slept backoff (attempts config world id rounds (attempt + 1) next db')
              ])).db
      round (returned db') a ih = a
      round (retrying db') a ih = ih next db' a.1.0 a.1.1 a.0

  -- A delivery that has a row, and whose worker starts at an attempt within `max_attempts`, of
  -- which there is at least one, ends: its row is `succeeded`, after an attempt that the target
  -- accepted, or `dead_letter` with the message of the last attempt's error, which was permanent
  -- or that of attempt `max_attempts`. No retry is left planned.
  pub run_from-EndedIn :
      (first : ℕ) (db : Db) (d : DeliveryRow)
      → find id db.deliveries.rows ≡ some d
      → first ≤ config.max_attempts
      → 1 ≤ config.max_attempts
      → EndedIn world config.max_attempts id (run_from config world id first db).db
  unfolding run_from
  run_from-EndedIn first db d e le one =
      attempts-EndedIn (config.max_attempts + 1 - max first 1) (max first 1)
        (first_backoff config world id (max first 1)) db d e (omega arith) (omega arith)

-- A refused delivery is permanent exactly for a client error other than 408, 425 and 429.
redacted_delivery_error-permanent :
    (shown : ℕ → String) (status : ℕ)
    → ((redacted_delivery_error shown (rejected status)).permanent ≡ true)
      ↔ ((400 ≤ status) × (status < 500) × (status ≢ 408) × (status ≢ 425) × (status ≢ 429))
unfolding redacted_delivery_error
redacted_delivery_error-permanent shown status = (λ h. ground arith, λ h. ground arith)
