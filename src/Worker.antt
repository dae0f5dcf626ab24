-- ===== src/Worker.antt =====
-- main.rs: the delivery worker with its retries, the end of a batch's attempt, and which errors of
-- a target are permanent. A worker is a task of its own; what other tasks write to the database
-- while it waits is not in its run.
pub mod Backoff
pub mod Outcome
use simple_alert_proxy.Prelude.{
  ℕ, zero, suc, ◌+◌, ◌-◌, ◌*◌, ◌^◌, String, Bool, true, false, ◌&&◌, ◌||◌, Option, none, some, List,
  [], ◌∷◌, ◌==◌, min, max, leb, ltb, not, if◌then◌else◌,
}
use simple_alert_proxy.Prelude.Int.{ℤ, as_i64, i64_add, i64_saturating_add, u64_saturating_mul}
use simple_alert_proxy.Storage.{Db}
use simple_alert_proxy.Storage.Deliveries.{
  mark_attempt, mark_succeeded, mark_retrying, mark_dead_letter,
}
use simple_alert_proxy.Storage.Sending.{
  mark_notification_batch_succeeded, mark_notification_batch_retrying,
  mark_notification_batch_dead_letter,
}

-- `max_attempts` is a u32; the backoffs are u64 milliseconds.
pub record DeliveryConfig : Type 0 where
  pub max_attempts : ℕ
  pub initial_backoff_millis : ℕ
  pub max_backoff_millis : ℕ

pub record DeliveryFailure : Type 0 where
  pub message : String
  pub permanent : Bool

-- What the target answers to each attempt (`none` is success), and what `now_epoch_millis` reads
-- when the attempt is marked, when its end is, and when the next retry is computed.
pub record World : Type 0 where
  pub answer : ℕ → Option DeliveryFailure
  pub started : ℕ → ℤ
  pub ended : ℕ → ℤ
  pub read : ℕ → ℤ

-- What a run leaves: the database, and its attempts and waits in order.
pub record Run : Type 0 where
  pub db : Db
  pub sends : List ℕ
  pub sleeps : List ℕ

pub data Round : Type 0 where
  returned retrying : Db → Round

abbrev pub sent : ℕ → Run → Run
sent attempt r = record r { sends = attempt ∷ r.sends }

abbrev pub slept : ℕ → Run → Run
slept backoff r = record r { sleeps = backoff ∷ r.sleeps }

abbrev pub stopped : Db → Run
stopped db = record { db = db; sends = []; sleeps = [] }

module _ (config : DeliveryConfig) (world : World) (delivery_id : ℕ) where
  -- One round of the loop: it returns, or it waits and goes on.
  unfoldable pub attempt_once : ℕ → ℕ → Db → Round
  attempt_once attempt backoff db =
      let marked = mark_attempt (world.started attempt) delivery_id attempt db in
      elim (world.answer attempt) [
        | none ↦ returned (mark_succeeded (world.ended attempt) delivery_id "delivered" marked)
        | some failure ↦ elim (failure.permanent || leb config.max_attempts attempt) [
          | true ↦
              returned (mark_dead_letter (world.ended attempt) delivery_id failure.message marked)
          | false ↦ retrying (
              mark_retrying (world.ended attempt) delivery_id
                (i64_add (world.read attempt) (as_i64 backoff)) failure.message marked)
        ]
      ]

  -- The loop over `attempt in first_attempt..=max_attempts`, with the rounds that are left.
  unfoldable pub attempts : ℕ → ℕ → ℕ → Db → Run
  unfolding attempt_once
  attempts zero attempt backoff db = stopped db
  attempts (suc rounds) attempt backoff db = sent attempt (elim (attempt_once attempt backoff db) [
    | returned db' ↦ stopped db'
    | retrying db' ↦
        slept backoff
          (attempts rounds (attempt + 1) (min (backoff * 2) config.max_backoff_millis) db')
  ])

  abbrev pub first_backoff : ℕ → ℕ
  first_backoff attempt =
      min (u64_saturating_mul config.initial_backoff_millis (2 ^ min (attempt - 1) 31))
        config.max_backoff_millis

  -- `DeliveryWorker::run_from`
  unfoldable pub run_from : ℕ → Db → Run
  unfolding attempts
  run_from first_attempt db =
      let first = max first_attempt 1 in
      attempts (config.max_attempts + 1 - first) first (first_backoff first) db

-- The wait before a failed batch is tried again, in `run_notification_batch`.
unfoldable pub batch_backoff : DeliveryConfig → ℕ → ℕ
batch_backoff config attempt =
    min (u64_saturating_mul config.initial_backoff_millis (2 ^ min (attempt - 1) 31))
      config.max_backoff_millis

-- `run_notification_batch`, once `send_notification_batch` has answered.
unfoldable pub run_notification_batch :
    DeliveryConfig → ℤ → ℤ → ℕ → ℕ → Option DeliveryFailure → Db → Db
unfolding batch_backoff
run_notification_batch config now read id attempt none = mark_notification_batch_succeeded now id
run_notification_batch config now read id attempt (some error) =
    if error.permanent || leb config.max_attempts attempt
    then mark_notification_batch_dead_letter now id error.message
    else mark_notification_batch_retrying now id
        (i64_saturating_add read (as_i64 (batch_backoff config attempt))) error.message

-- The errors of a target. The texts of the last three are printed by the crates that raise them.
pub data GoogleChatError : Type 0 where
  rejected : ℕ → GoogleChatError
  config : GoogleChatError
  http : GoogleChatError
  template cloudevents : String → GoogleChatError

abbrev pub retryable : String → DeliveryFailure
retryable message = record { message = message; permanent = false }

abbrev pub permanent : String → DeliveryFailure
permanent message = record { message = message; permanent = true }

-- `StatusCode::is_client_error`
abbrev pub is_client_error : ℕ → Bool
is_client_error status = leb 400 status && ltb status 500

-- The message prints the status with its reason phrase, which `shown` gives.
unfoldable pub redacted_delivery_error : (ℕ → String) → GoogleChatError → DeliveryFailure
redacted_delivery_error shown (rejected status) =
    if is_client_error status && not (status == 408 || status == 425 || status == 429)
    then permanent (shown status)
    else retryable (shown status)
redacted_delivery_error shown config = permanent "target configuration failed"
redacted_delivery_error shown (template error) = permanent error
redacted_delivery_error shown (cloudevents error) = permanent error
redacted_delivery_error shown http = retryable "target delivery failed"
