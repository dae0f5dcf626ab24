-- ===== src/Worker/Backoff.antt =====
-- The waits between the attempts of a delivery.
use simple_alert_proxy.Prelude.{
  ℕ, zero, suc, ◌+◌, ◌-◌, ◌*◌, ◌^◌, ◌≤◌, ◌<◌, List, [], ◌∷◌, min, max, ◌≡◌, refl, arith, ap, length,
}
use native.Mathlib.Nat.{pow-suc}
use simple_alert_proxy.Prelude.Int.{u64_max, u64_saturating_mul}
use simple_alert_proxy.Storage.{Db}
use simple_alert_proxy.Worker.{
  DeliveryConfig, World, Run, Round, returned, retrying, sent, slept, stopped, attempt_once,
  attempts, first_backoff, run_from, batch_backoff,
}

-- The wait after an attempt: it doubles from the first, up to the largest.
abbrev pub backoff_after : DeliveryConfig → ℕ → ℕ
backoff_after config attempt =
    min (config.initial_backoff_millis * 2 ^ (attempt - 1)) config.max_backoff_millis

-- A saturated product is no less than a bound that a u64 holds.
min-saturating : (a b m : ℕ) → m ≤ u64_max → min (u64_saturating_mul a b) m ≡ min (a * b) m
min-saturating a b m h = ground arith

-- For the first 32 attempts, with a u64 for the largest wait, a batch waits what a doubling of
-- the wait from one attempt to the next gives, which is what a single delivery waits.
batch_backoff_lem :
    (config : DeliveryConfig) (attempt : ℕ)
    → config.max_backoff_millis ≤ u64_max
    → attempt ≤ 32
    → batch_backoff config attempt ≡ backoff_after config attempt
unfolding batch_backoff
batch_backoff_lem config attempt h k =
    let e : min (attempt - 1) 31 ≡ attempt - 1 = omega arith in
    rw e
      (min-saturating config.initial_backoff_millis (2 ^ (attempt - 1)) config.max_backoff_millis h)

double :
    (config : DeliveryConfig) (attempt : ℕ)
    → 1 ≤ attempt
    → min (backoff_after config attempt * 2) config.max_backoff_millis
      ≡ backoff_after config (attempt + 1)
double config zero h = absurd (omega arith)
double config (suc k) h =
    let e : 2 ^ (suc k + 1 - 1) ≡ 2 ^ k * 2 = rw (drop-one (suc k)) (pow-suc 2 k) in
    let f : suc k - 1 ≡ k = omega arith in
    rw (e, f) (halves config.initial_backoff_millis (2 ^ k) config.max_backoff_millis)
  where
    drop-one : (n : ℕ) → n + 1 - 1 ≡ n
    drop-one n = omega arith

    halves : (a p m : ℕ) → min (min (a * p) m * 2) m ≡ min (a * (p * 2)) m
    halves a p m = omega arith

-- The waits that follow attempts `attempt`, `attempt + 1`, …
abbrev pub backoffs : DeliveryConfig → ℕ → ℕ → List ℕ
backoffs config zero attempt = []
backoffs config (suc n) attempt = backoff_after config attempt ∷ backoffs config n (attempt + 1)

-- The attempts `attempt`, `attempt + 1`, …
abbrev pub upwards : ℕ → ℕ → List ℕ
upwards zero attempt = []
upwards (suc n) attempt = attempt ∷ upwards n (attempt + 1)

-- A run in order: attempts counted up, each but the last followed by its wait.
pub record InOrder (config : DeliveryConfig) (rounds first : ℕ) (r : Run) : Type 0 where
  pub sends : r.sends ≡ upwards (length r.sends) first
  pub sleeps : r.sleeps ≡ backoffs config (length r.sleeps) first
  pub bounded : length r.sends ≤ rounds
  pub ended : 0 < rounds → length r.sends ≡ length r.sleeps + 1

module _ (config : DeliveryConfig) (world : World) (id : ℕ) where
  attempt_once-retrying :
      (attempt backoff : ℕ) (db : Db) {db' : Db}
      → attempt_once config world id attempt backoff db ≡ retrying db'
      → attempt < config.max_attempts
  unfolding attempt_once
  attempt_once-retrying attempt backoff db e = ground arith

  pub attempts-InOrder :
      (rounds attempt : ℕ) (db : Db)
      → 1 ≤ attempt
      → config.max_attempts + 1 ≤ rounds + attempt
      → InOrder config rounds attempt
          (attempts config world id rounds attempt (backoff_after config attempt) db)
  unfolding attempts
  attempts-InOrder zero attempt db one h = record {
    sends = refl;
    sleeps = refl;
    bounded = omega arith;
    ended = λ z. absurd (omega arith);
  }
  attempts-InOrder (suc rounds) attempt db one h =
      round (attempt_once config world id attempt (backoff_after config attempt) db) refl
        (λ db'. attempts-InOrder rounds (attempt + 1) db' (omega arith) (omega arith))
    where
      next : ℕ
      next = min (backoff_after config attempt * 2) config.max_backoff_millis

      round :
          (s : Round)
          → attempt_once config world id attempt (backoff_after config attempt) db ≡ s
          → ((db' : Db)
              → InOrder config rounds (attempt + 1) (
                  attempts config world id rounds
                    (attempt + 1)
                    (backoff_after config (attempt + 1))
                    db'))
          → InOrder config (suc rounds) attempt (
              sent attempt (elim s [
                | returned db' ↦ stopped db'
                | retrying db' ↦
                    slept
                      (backoff_after config attempt)
                      (attempts config world id rounds (attempt + 1) next db')
              ]))
      round (returned db') e ih = record {
        sends = refl;
        sleeps = refl;
        bounded = omega arith;
        ended = λ _. refl;
      }
      round (retrying db') e ih =
          let lt = attempt_once-retrying attempt (backoff_after config attempt) db e in
          rw (double config attempt one) (
            let r = ih db' in
            record {
              sends = ap (◌∷◌ attempt) r.sends;
              sleeps = ap (◌∷◌ (backoff_after config attempt)) r.sleeps;
              bounded = omega (arith, r.bounded);
              ended = λ _. omega (arith, r.ended (omega (arith, lt)));
            })

  -- A run from an attempt that is at least 1, at most 32 and within `max_attempts`, with a u64
  -- for the largest wait, makes its attempts in order, at most up to `max_attempts` and at least
  -- one, each but the last followed by its wait. The waits double from `initial_backoff_millis`
  -- up to `max_backoff_millis`, as if the run had begun at attempt 1.
  pub run_from-InOrder :
      (first : ℕ) (db : Db)
      → 1 ≤ first
      → first ≤ 32
      → first ≤ config.max_attempts
      → config.max_backoff_millis ≤ u64_max
      → InOrder config (config.max_attempts + 1 - first) first (run_from config world id first db)
        × (0 < length (run_from config world id first db).sends)
  unfolding run_from
  run_from-InOrder first db one small known cap =
      let e : max first 1 ≡ first = omega arith in
      let b : first_backoff config world id first ≡ backoff_after config first =
        unfold batch_backoff in batch_backoff_lem config first cap small in
      rw (e, b)
        (let r = attempts-InOrder (config.max_attempts + 1 - first) first db one (omega arith) in
          (r, omega (arith, r.ended (omega arith))))
