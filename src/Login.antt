-- ===== src/Login.antt =====
-- main.rs: `LoginAttemptLimiter`, which locks a name after too many failures. The map is a function
-- from names.
pub mod Lockout
use simple_alert_proxy.Prelude.{
  ℕ, ◌+◌, ◌*◌, String, Bool, true, false, Option, none, some, str_eq, leb, if◌then◌else◌, unwrap_or,
}
use simple_alert_proxy.Prelude.Int.{ℤ, pos, i64_add, leb_ℤ, ltb_ℤ, u32_saturating_add}
use simple_alert_proxy.Prelude.Text.{trim}

abbrev pub login_failure_limit : ℕ
login_failure_limit = 5

abbrev pub login_lockout_millis : ℕ
login_lockout_millis = 15 * 60 * 1000

pub record LoginAttemptState : Type 0 where
  pub failures : ℕ
  pub locked_until : ℤ

abbrev pub Attempts : Type 0
Attempts = String → Option LoginAttemptState

abbrev pub put : String → Option LoginAttemptState → Attempts → Attempts
put key state attempts = λ k. if str_eq k key then state else attempts k

-- `LoginAttemptLimiter::new`
abbrev pub new : Attempts
new = λ k. none

unfoldable pub login_attempt_key : String → String
login_attempt_key username = trim username

unfoldable pub check_allowed : ℤ → String → Attempts → Bool × Attempts
unfolding login_attempt_key
check_allowed now username attempts =
    let key = login_attempt_key username in
    elim (attempts key) [
      | none ↦ (true, attempts)
      | some state ↦
          if ltb_ℤ now state.locked_until
          then (false, attempts)
          else if ltb_ℤ (pos 0) state.locked_until
          then (true, put key none attempts)
          else (true, attempts)
    ]

abbrev pub fresh_state : LoginAttemptState
fresh_state = record { failures = 0; locked_until = pos 0 }

abbrev pub fail_once : ℤ → LoginAttemptState → LoginAttemptState
fail_once now state =
    let failures = u32_saturating_add state.failures 1 in
    record {
      failures = failures;
      locked_until =
          if leb login_failure_limit failures
          then i64_add now (pos login_lockout_millis)
          else state.locked_until;
    }

unfoldable pub record_failure : ℤ → String → Attempts → Attempts
unfolding login_attempt_key
record_failure now username attempts =
    let key = login_attempt_key username in
    put key (some (fail_once now (unwrap_or (attempts key) fresh_state))) attempts

unfoldable pub record_success : String → Attempts → Attempts
unfolding login_attempt_key
record_success username attempts = put (login_attempt_key username) none attempts
