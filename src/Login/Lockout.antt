-- ===== src/Login/Lockout.antt =====
-- When a name is locked, and for how long.
use simple_alert_proxy.Prelude.{
  Option-cases, ℕ, ◌+◌, ◌≤◌, ◌<◌, ◌^◌, String, true, false, ◌&&◌, not, Option, none, some, List, [],
  ◌∷◌, str_eq, str_eq_iff, leb, ltb, if◌then◌else◌, ◌≡◌, ◌≢◌, refl, arith, inl, inr, Bool-cases,
  length, All, unwrap_or, ap, subst, ◌∙◌,
}
use simple_alert_proxy.Prelude.Int.{ℤ, pos, i64_add_small, ltb_ℤ, u32_max, u32_saturating_add}
use simple_alert_proxy.Login.{
  record_success, LoginAttemptState, Attempts, put, fail_once, fresh_state, login_failure_limit,
  login_lockout_millis, login_attempt_key, check_allowed, record_failure,
}

-- Failures of one name at the given times, newest first.
abbrev pub failures : String → List ℕ → Attempts → Attempts
failures username [] attempts = attempts
failures username (t ∷ earlier) attempts =
    record_failure (pos t) username (failures username earlier attempts)

-- The state of a name that failed `n` times in a row, last at time `t`.
abbrev IsFailed : ℕ → ℕ → LoginAttemptState → Type 0
IsFailed n t s =
    (s.failures ≡ n)
    × (s.locked_until
        ≡ (if leb login_failure_limit n then pos (t + login_lockout_millis) else pos 0))

put_same :
    (key : String) (s : Option LoginAttemptState) (attempts : Attempts) → put key s attempts key ≡ s
put_same key s attempts = rw ((str_eq_iff key key).1 refl)

put_other :
    (key other : String) (s : Option LoginAttemptState) (attempts : Attempts)
    → other ≢ key
    → put key s attempts other ≡ attempts other
put_other key other s attempts ne = elim (Bool-cases (str_eq other key)) [
  | inl e ↦ absurd (ne ((str_eq_iff other key).0 e))
  | inr e ↦ rw e
]

fail_once-next :
    (n t u : ℕ) (s : LoginAttemptState)
    → n < u32_max
    → t + login_lockout_millis < 2 ^ 63
    → IsFailed n u s
    → IsFailed (n + 1) t (fail_once (pos t) s)
fail_once-next n t u s small fits (c, l) =
    let count : u32_saturating_add s.failures 1 ≡ n + 1 = rw c (ground arith) in
    (count, rw (count, l) (ground (arith, i64_add_small t login_lockout_millis fits)))

abbrev pub Fits : ℕ → Type 0
Fits t = t + login_lockout_millis < 2 ^ 63

record_failure_state :
    (now : ℤ) (username : String) (attempts : Attempts)
    → record_failure now username attempts (login_attempt_key username)
      ≡ some (fail_once now (unwrap_or (attempts (login_attempt_key username)) fresh_state))
unfolding record_failure
record_failure_state now username attempts = put_same (login_attempt_key username) _ attempts

check_allowed_state :
    (now : ℤ) (username : String) (attempts : Attempts) (s : LoginAttemptState)
    → attempts (login_attempt_key username) ≡ some s
    → check_allowed now username attempts ≡ (
        if ltb_ℤ now s.locked_until
        then (false, attempts)
        else if ltb_ℤ (pos 0) s.locked_until
        then (true, put (login_attempt_key username) none attempts)
        else (true, attempts))
unfolding check_allowed login_attempt_key
check_allowed_state now username attempts s e = rw (e, check_allowed) refl

check_allowed_free :
    (now : ℤ) (username : String) (attempts : Attempts)
    → attempts (login_attempt_key username) ≡ none
    → check_allowed now username attempts ≡ (true, attempts)
unfolding check_allowed login_attempt_key
check_allowed_free now username attempts e = rw (e, check_allowed) refl

-- The failures are counted, and the last of them sets the end of the lock.
failures-IsFailed :
    (t : ℕ) (earlier : List ℕ) (username : String) (attempts : Attempts)
    → attempts (login_attempt_key username) ≡ none
    → length earlier < u32_max
    → All Fits (t ∷ earlier)
    → (s : LoginAttemptState) × (failures username
          (t ∷ earlier)
          attempts
          (login_attempt_key username)
        ≡ some s)
      × IsFailed (length earlier + 1) t s
failures-IsFailed t [] username attempts free small fits = (
  fail_once (pos t) fresh_state,
  record_failure_state (pos t) username attempts
      ∙ ap (λ o. some (fail_once (pos t) (unwrap_or o fresh_state))) free,
  (refl, refl),
)
failures-IsFailed t (u ∷ earlier) username attempts free small fits =
    let (s, e, f) =
      failures-IsFailed u earlier username attempts free (omega (arith, small)) fits.1 in
    let one_more : length earlier + 1 ≡ length (u ∷ earlier) = omega arith in
    (
      fail_once (pos t) s,
      record_failure_state (pos t) username (failures username (u ∷ earlier) attempts)
          ∙ ap (λ o. some (fail_once (pos t) (unwrap_or o fresh_state))) e,
      fail_once-next (length (u ∷ earlier)) t u s small fits.0
          (subst (λ n. IsFailed n u s) one_more f),
    )

-- A name that has failed at the given times since it was last free (newest first), fewer than 2 ^
-- 32 of them and none within 15 minutes of the end of the i64 clock, is refused exactly from the
-- fifth failure on, and only until 15 minutes after the newest.
pub check_allowed-locked :
    (now t : ℕ) (earlier : List ℕ) (username : String) (attempts : Attempts)
    → attempts (login_attempt_key username) ≡ none
    → length earlier < u32_max
    → All Fits (t ∷ earlier)
    → (check_allowed (pos now) username (failures username (t ∷ earlier) attempts)).0
      ≡ not (leb login_failure_limit (length earlier + 1) && ltb now (t + login_lockout_millis))
check_allowed-locked now t earlier username attempts free small fits =
    let (s, e, f) = failures-IsFailed t earlier username attempts free small fits in
    ap (λ r. r.0)
      (check_allowed_state (pos now) username (failures username (t ∷ earlier) attempts) s e)
    ∙ rw (f.1) (ground arith)

-- Under the same conditions, where there were at least five failures and 15 minutes have passed
-- since the newest, the check forgets them: the name is free again, and its next failure counts
-- as the first.
pub check_allowed-freed :
    (now t : ℕ) (earlier : List ℕ) (username : String) (attempts : Attempts)
    → attempts (login_attempt_key username) ≡ none
    → length earlier < u32_max
    → login_failure_limit ≤ length earlier + 1
    → All Fits (t ∷ earlier)
    → t + login_lockout_millis ≤ now
    → (check_allowed (pos now) username (failures username (t ∷ earlier) attempts)).1
        (login_attempt_key username)
      ≡ none
check_allowed-freed now t earlier username attempts free small five fits later =
    let (s, e, f) = failures-IsFailed t earlier username attempts free small fits in
    ap (λ r. r.1 (login_attempt_key username))
      (check_allowed_state (pos now) username (failures username (t ∷ earlier) attempts) s e)
    ∙ rw (f.1) (
        ground (
          arith,
          put_same (login_attempt_key username) none (failures username (t ∷ earlier) attempts),
        ))

check_allowed_other :
    (now : ℤ) (username other : String) (attempts : Attempts)
    → other ≢ login_attempt_key username
    → (check_allowed now username attempts).1 other ≡ attempts other
check_allowed_other now username other attempts ne =
    elim (Option-cases (attempts (login_attempt_key username))) [
      | inl e ↦ ap (λ r. r.1 other) (check_allowed_free now username attempts e)
      | inr (s, e) ↦
          ap (λ r. r.1 other) (check_allowed_state now username attempts s e)
          ∙ ground (arith, put_other (login_attempt_key username) other none attempts ne)
    ]

-- A check, a failure and a success of one name leave the state of every other name as it is.
login_other_names :
    (now : ℤ) (username other : String) (attempts : Attempts)
    → other ≢ login_attempt_key username
    → ((check_allowed now username attempts).1 other ≡ attempts other)
      × (record_failure now username attempts other ≡ attempts other)
      × (record_success username attempts other ≡ attempts other)
unfolding record_failure record_success
login_other_names now username other attempts ne = (
  check_allowed_other now username other attempts ne,
  put_other (login_attempt_key username) other _ attempts ne,
  put_other (login_attempt_key username) other none attempts ne,
)
